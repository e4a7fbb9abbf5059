-- ===== src/Profiles/Visible.antt =====
-- The materialised surface against the live catalogue.
use portico_gateway.Base.{
  Bool, true, Option, none, some, List, ◌≡◌, ◌↔◌, GoString, Memᴰ, mem-filter,
}
use portico_gateway.Profiles.{
  Profile, LiveCatalog, Surface, allows_server, allows_tool, allows_skill, allows_alias,
  materialize,
}

-- What stands in a list, exactly when it is live and allowed.
abbrev pub IsVisible : List GoString → List GoString → (GoString → Bool) → Type 0
IsVisible shown live allow = (x : GoString) → Memᴰ x shown ↔ (Memᴰ x live × (allow x ≡ true))

pub record Shows (p : Option Profile) (live : LiveCatalog) (s : Surface) : Type 0 where
  pub servers : IsVisible s.servers live.servers (allows_server p)
  pub skills : IsVisible s.skills live.skills (allows_skill p)
  pub models : IsVisible s.models live.aliases (allows_alias p)
  pub tools_allowed : (t : GoString) → Memᴰ t s.tools → allows_tool p t ≡ true

-- The surface of any profile shows a server, a skill or a model alias exactly when it is live and
-- the profile allows it, and shows no tool that the profile does not allow.
pub materialize-Shows :
    (p : Option Profile) (live : LiveCatalog) → Shows p live (materialize p live)
unfolding materialize
materialize-Shows none live = record {
  servers = λ x. mem-filter _ x live.servers;
  skills = λ x. mem-filter _ x live.skills;
  models = λ x. mem-filter _ x live.aliases;
  tools_allowed = λ t m. elim m [ ];
}
materialize-Shows (some p) live = record {
  servers = λ x. mem-filter _ x live.servers;
  skills = λ x. mem-filter _ x live.skills;
  models = λ x. mem-filter _ x live.aliases;
  tools_allowed = λ t m. ((mem-filter (allows_tool (some p)) t p.allowed_tools).0 m).1;
}

-- Whatever is live, the tools of a surface are the listed tools that are allowed: a tool stays
-- listed when its server is not live.
pub materialize_tools-any_live :
    (p : Profile) (live : LiveCatalog) (t : GoString)
    → Memᴰ t (materialize (some p) live).tools
      ↔ (Memᴰ t p.allowed_tools × (allows_tool (some p) t ≡ true))
unfolding materialize
materialize_tools-any_live p live t = mem-filter _ t p.allowed_tools
