-- ===== src/Snapshots/Differences.antt =====
-- What a difference of two catalogues lists.
use portico_gateway.Base.{
  none, some, List, [], ◌∷◌, ◌++◌, ◌≡◌, refl, sym, ◌∙◌, ◌≢◌, inl, inr, subst, GoString, str_eq,
  str_eq_iff, Memᴰ, Bool-cases, Memᴰ-append_left, Memᴰ-append_right,
}
use mathlib.Core.Option.{some-injective}
use portico_gateway.Base.Assoc.{Assoc, lookup, set, lookup-set}
use portico_gateway.Snapshots.{
  Tool, ToolInfo, Shape, shape, tool_fingerprint, index_from, index_tools_by_name, modified_tool,
}
use portico_gateway.Snapshots.Drift.{
  removed, removed_by, modified, modified_by, new_ref, new_refs, index_new_tools, diff_tools,
}

module _ (server : GoString) (news : Assoc ToolInfo) where
  removed_by_mem :
      (name : GoString) (ot : ToolInfo)
      → ot.server_id ≡ server
      → lookup name news ≡ none
      → Memᴰ name (removed_by server name ot (lookup name news))
  unfolding removed_by
  removed_by_mem name ot s l = rw (l, (str_eq_iff ot.server_id server).1 s) (Memᴰ.head refl)

  -- An old tool of the server that is listed no more is removed.
  pub removed_mem :
      (olds : Assoc ToolInfo) (name : GoString) (ot : ToolInfo)
      → Memᴰ (name, ot) olds
      → ot.server_id ≡ server
      → lookup name news ≡ none
      → Memᴰ name (removed server olds news)
  unfolding removed
  removed_mem [] name ot m s l = elim m [ ]
  removed_mem ((n, o) ∷ olds) name ot (Memᴰ.head e) s l =
      subst
        (λ (q : GoString × ToolInfo).
          Memᴰ name (removed_by server q.0 q.1 (lookup q.0 news) ++ removed server olds news))
        e (Memᴰ-append_left _ _ (removed_by_mem name ot s l))
  removed_mem ((n, o) ∷ olds) name ot (Memᴰ.tail m) s l =
      Memᴰ-append_right _ _ (removed_mem olds name ot m s l)

  modified_by_mem :
      (name : GoString) (ot nt : ToolInfo)
      → ot.server_id ≡ server
      → lookup name news ≡ some nt
      → ot.hash ≢ nt.hash
      → Memᴰ (modified_tool name ot nt) (modified_by server name ot (lookup name news))
  unfolding modified_by
  modified_by_mem name ot nt s l h = elim (Bool-cases (str_eq ot.hash nt.hash)) [
    | inl e ↦ absurd (h ((str_eq_iff ot.hash nt.hash).0 e))
    | inr e ↦ rw (l, (str_eq_iff ot.server_id server).1 s, e) (Memᴰ.head refl)
  ]

  -- An old tool of the server that is listed with another hash is modified.
  pub modified_mem :
      (olds : Assoc ToolInfo) (name : GoString) (ot nt : ToolInfo)
      → Memᴰ (name, ot) olds
      → ot.server_id ≡ server
      → lookup name news ≡ some nt
      → ot.hash ≢ nt.hash
      → Memᴰ (modified_tool name ot nt) (modified server olds news)
  unfolding modified
  modified_mem [] name ot nt m s l h = elim m [ ]
  modified_mem ((n, o) ∷ olds) name ot nt (Memᴰ.head e) s l h =
      subst
        (λ (q : GoString × ToolInfo).
          Memᴰ (modified_tool name ot nt)
            (modified_by server q.0 q.1 (lookup q.0 news) ++ modified server olds news))
        e (Memᴰ-append_left _ _ (modified_by_mem name ot nt s l h))
  modified_mem ((n, o) ∷ olds) name ot nt (Memᴰ.tail m) s l h =
      Memᴰ-append_right _ _ (modified_mem olds name ot nt m s l h)

module _ (digest : Shape → GoString) (server : GoString) where
  -- The detector hashes a live tool with no risk class.
  abbrev IsBare : ToolInfo → Type 0
  IsBare nt = (nt.hash ≡ tool_fingerprint digest nt) × (nt.risk_class ≡ [])

  new_ref-IsBare : (t : Tool) → IsBare (new_ref digest server t)
  unfolding new_ref tool_fingerprint shape
  new_ref-IsBare t = (refl, refl)

  -- Every tool of the map is bare.
  abbrev AllBare : Assoc ToolInfo → Type 0
  AllBare m = (name : GoString) (nt : ToolInfo) → lookup name m ≡ some nt → IsBare nt

  index_from-AllBare :
      (tools : List Tool) (m : Assoc ToolInfo)
      → AllBare m
      → AllBare (index_from m (new_refs digest server tools))
  unfolding index_from new_refs
  index_from-AllBare [] m h = h
  index_from-AllBare (t ∷ tools) m h =
      index_from-AllBare tools _ (λ name nt e. set_bare t name nt e)
    where
      set_bare :
          (t : Tool) (name : GoString) (nt : ToolInfo)
          → lookup name (set (new_ref digest server t).namespaced_name (new_ref digest server t) m)
            ≡ some nt
          → IsBare nt
      set_bare t name nt e =
          let x = new_ref digest server t in
          let q = lookup-set x.namespaced_name name x m in
          elim (Bool-cases (str_eq x.namespaced_name name)) [
            | inl y ↦ subst IsBare (some-injective _ _ (sym (rw y at q) ∙ e)) (new_ref-IsBare t)
            | inr y ↦ h name nt (sym (rw y at q) ∙ e)
          ]

  -- A tool of the snapshot that has a risk class is reported as modified whenever its server still
  -- lists its name, also where the listing has not changed, if no two risk classes share a digest:
  -- the recorded hash covers the class, and the live one is taken without it.
  pub modified-unchanged :
      (tools : List Tool) (olds : Assoc ToolInfo) (name : GoString) (ot nt : ToolInfo)
      → ((a b : Shape) → digest a ≡ digest b → a.risk_class ≡ b.risk_class)
      → Memᴰ (name, ot) olds
      → ot.server_id ≡ server
      → ot.hash ≡ tool_fingerprint digest ot
      → ot.risk_class ≢ []
      → lookup name (index_new_tools digest tools server) ≡ some nt
      → Memᴰ
          (modified_tool name ot nt)
          (diff_tools olds (index_new_tools digest tools server) server).modified
  unfolding diff_tools index_new_tools index_tools_by_name
  modified-unchanged tools olds name ot nt injective m s e r l =
      let (bare, blank) =
        index_from-AllBare tools [] (λ n t q. absurd (unfold lookup in cc)) name nt l in
      modified_mem server _ olds name ot nt m s l (λ same. r (classes (digests same bare) ∙ blank))
    where
      digests :
          ot.hash ≡ nt.hash
          → nt.hash ≡ tool_fingerprint digest nt
          → digest (shape ot) ≡ digest (shape nt)
      digests same bare = unfold tool_fingerprint in (sym e ∙ (same ∙ bare))

      classes : digest (shape ot) ≡ digest (shape nt) → ot.risk_class ≡ nt.risk_class
      classes q = unfold shape in (injective (shape ot) (shape nt) q)
