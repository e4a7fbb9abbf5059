-- ===== src/Policy/Skills.antt =====
-- The skill that owns a tool (findOwningSkill of internal/policy/engine.go), and the enablement that
-- it asks (internal/skills/runtime/enablement.go).
use portico_gateway.Base.{
  Bool, true, false, ◌||◌, Option, none, some, List, [], ◌∷◌, if◌then◌else◌, GoString, codes,
  str_eq, contains, is_empty,
}
use portico_gateway.Base.Assoc.{Assoc, lookup}

-- The store's answer to `Resolve`: an error, or (enabled, found).
abbrev pub EnablementStore : Type 0
EnablementStore = GoString → GoString → GoString → Option (Bool × Bool)

-- `auto` is ModeAuto; the other mode is ModeOptIn.
pub record Enablement : Type 0 where
  pub store : Option EnablementStore
  pub auto : Bool

unfoldable pub new_enablement : Option EnablementStore → GoString → Enablement
new_enablement store mode = record { store = store; auto = str_eq mode (codes "auto") }

-- The answer where the store has a rule, and the mode where it has none; `none` is an error.
abbrev pub resolved_or_mode : Option (Bool × Bool) → Bool → Option Bool
resolved_or_mode none auto = none
resolved_or_mode (some (enabled, true)) auto = some enabled
resolved_or_mode (some (enabled, false)) auto = some auto

unfoldable pub is_enabled : Enablement → GoString → GoString → GoString → Option Bool
is_enabled e tenant session skill = elim e.store [
  | none ↦ some e.auto
  | some store ↦
      if is_empty tenant || is_empty skill
      then none
      else resolved_or_mode (store tenant session skill) e.auto
]

-- The parts of manifest.Manifest that the engine reads.
pub record Manifest : Type 0 where
  pub id : GoString
  pub required_tools : List GoString
  pub optional_tools : List GoString
  pub requires_approval : List GoString
  pub risk_classes : Assoc GoString

unfoldable pub skill_covers : List GoString → GoString → Bool
skill_covers list name = contains list name

pub record Owner : Type 0 where
  pub skill_id : GoString
  pub risk_override : GoString
  pub requires_approval : Bool

-- A missing key reads as "".
abbrev or_empty : Option GoString → GoString
or_empty none = []
or_empty (some s) = s

owner_of : Manifest → GoString → Owner
owner_of m tool = record {
  skill_id = m.id;
  risk_override = or_empty (lookup tool m.risk_classes);
  requires_approval = contains m.requires_approval tool;
}

-- `err != nil || !on` skips the skill.
abbrev is_on : Option Bool → Bool
is_on none = false
is_on (some on) = on

abbrev enabled_for : Option Enablement → GoString → GoString → GoString → Bool
enabled_for none tenant session skill = true
enabled_for (some e) tenant session skill = is_on (is_enabled e tenant session skill)

module _ (enable : Option Enablement) (tenant session tool : GoString) where
  -- Does the skill cover the tool, and is it on?
  unfoldable pub owns : Manifest → Bool
  unfolding skill_covers
  owns m =
      if skill_covers m.required_tools tool || skill_covers m.optional_tools tool
      then enabled_for enable tenant session m.id
      else false

  -- A nil skill, or one with a nil manifest, is `none` and is passed over.
  unfoldable pub find_owning_skill : List (Option Manifest) → Option Owner
  unfolding owner_of owns
  find_owning_skill [] = none
  find_owning_skill (none ∷ skills) = find_owning_skill skills
  find_owning_skill (some m ∷ skills) =
      let later = find_owning_skill skills in if owns m then some (owner_of m tool) else later
