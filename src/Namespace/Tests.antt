-- ===== src/Namespace/Tests.antt =====
-- Runs of the name functions, on the inputs of namespace_test.go among others.
use portico_gateway.Base.{◌≡◌, refl, ◌↔◌, true, false, none, some, codes}
use portico_gateway.Namespace.{validate_server_id, split_tool}
use portico_gateway.Namespace.Names.{IsQualified, split_tool_iff}

split_first_dot : split_tool (codes "github.foo.bar") ≡ some (codes "github", codes "foo.bar")
unfolding split_tool
split_first_dot = refl

split_no_dot : split_tool (codes "nodot") ≡ none
unfolding split_tool
split_no_dot = refl

split_trailing : split_tool (codes "trailing.") ≡ none
unfolding split_tool
split_trailing = refl

split_leading : split_tool (codes ".leading") ≡ none
unfolding split_tool
split_leading = refl

id_upper_case : validate_server_id (codes "Github") ≡ false
unfolding validate_server_id
id_upper_case = refl

github_valid : validate_server_id (codes "github") ≡ true
unfolding validate_server_id
github_valid = refl

split_tool_iff_example :
    (split_tool (codes "a.b.c") ≡ some (codes "a", codes "b.c"))
    ↔ IsQualified (codes "a.b.c") (codes "a") (codes "b.c")
split_tool_iff_example = split_tool_iff (codes "a.b.c") (codes "a") (codes "b.c")
