-- ===== src/Policy/Glob/Tests.antt =====
-- `path.Match` on patterns with stars, classes and slashes.
use portico_gateway.Base.{◌≡◌, refl, true, false, none, some, codes}
use portico_gateway.Policy.Glob.{path_match}

star_in_name : path_match (codes "github.*") (codes "github.create") ≡ some true
unfolding path_match
star_in_name = refl

class_and_query : path_match (codes "g[a-i]t?ub.*_x") (codes "github.create_x") ≡ some true
unfolding path_match
class_and_query = refl

negated_class : path_match (codes "g[^a-i]t?ub.*_x") (codes "github.create_x") ≡ some false
unfolding path_match
negated_class = refl

open_class : path_match (codes "a[") (codes "a") ≡ none
unfolding path_match
open_class = refl

no_slash : path_match (codes "a*/b") (codes "a/c/b") ≡ some false
unfolding path_match
no_slash = refl

many_stars : path_match (codes "*a*b*c") (codes "xaabbbc") ≡ some true
unfolding path_match
many_stars = refl
