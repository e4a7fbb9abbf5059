-- ===== src/Gateway/Listing/Offered.antt =====
-- What a listing shows of what the servers offer.
use mathlib.Core.List.{Permᴰ}
use mathlib.Core.List.Permᴰ
use portico_gateway.Base.{
  ℕ, Bool, true, false, Option, none, some, List, [], map, ◌≡◌, refl, sym, ap, subst, ◌∙◌, ◌↔◌, inl,
  inr, arith, Memᴰ, Bool-cases, Option-cases, GoString, map_mem, mem-map, perm-mem, mem-filter,
  filter,
}
use portico_gateway.Base.Assoc.{lookup}
use portico_gateway.Profiles.{Profile, allows_tool}
use portico_gateway.Snapshots.{Tool, ToolInfo}
use portico_gateway.Gateway.Pipeline.{Caller, Server}
use portico_gateway.Gateway.Dispatcher.{Client, Manager}
use portico_gateway.Gateway.Bridge.{check_profile}
use portico_gateway.Gateway.Listing.{
  ServerTools, ToolsList, meta_tools, listed, internal_error, ToolsCache, filter_tools_by_profile,
  bound_tools, live_entry, qualify, combined, acquire_for, servers_for, answer_of, ask, gather,
  list_fresh, list_cached, list_bound, handle_tools_list,
}
use portico_gateway.Gateway.Listing.Answers.{mem-sort_tools, IsAnswered, combined_mem, mem-combined}

-- A tool that a server of the list, whose client can be had, lists, under its qualified name.
pub record IsOffered (list_tools : Client → Option (List Tool)) (m : Manager) (sess : Caller)
    (servers : List Server) (t : Tool) : Type 0 where
  pub server : Server
  pub client : Client
  pub tools : List Tool
  pub tool : Tool
  pub registered : Memᴰ server servers
  pub acquired : acquire_for m sess server ≡ some client
  pub lists : list_tools client ≡ some tools
  pub offers : Memᴰ tool tools
  pub same : t ≡ qualify server.id tool

-- The tools of an answer.
abbrev pub shown : ToolsList → List Tool
shown meta_tools = []
shown (listed tools) = tools
shown internal_error = []

module _ (list_tools : Client → Option (List Tool)) (m : Manager) (sess : Caller) where
  answered-IsOffered :
      (t : Tool) (servers : List Server)
      → IsAnswered t (map (ask list_tools (some m) sess) servers)
      → IsOffered list_tools m sess servers t
  answered-IsOffered t servers h =
      let (server, (k, q)) = map_mem (ask list_tools (some m) sess) h.answer servers h.among in
      let asked : answer_of list_tools (acquire_for m sess server) ≡ some h.tools =
        sym (ap (λ (r : ServerTools). r.tools) q) ∙ h.answers in
      elim (Option-cases (acquire_for m sess server)) [
        | inl e ↦ absurd (cc)
        | inr (client, e) ↦ record {
          server = server;
          client = client;
          tools = h.tools;
          tool = h.tool;
          registered = k;
          acquired = e;
          lists = ap (answer_of list_tools) (sym e) ∙ asked;
          offers = h.offers;
          same = h.same ∙ ap (λ (r : ServerTools). qualify r.server_id h.tool) q;
        }
      ]

  -- In whatever order the answers come in.
  module _ (arrive : List ServerTools → List ServerTools)
      (fair : (rs : List ServerTools) → Permᴰ rs (arrive rs)) where
    gather_mem :
        (t : Tool) (servers : List Server)
        → Memᴰ t (gather list_tools arrive (some m) sess servers)
        → IsOffered list_tools m sess servers t
    unfolding gather
    gather_mem t servers k =
        let asked = map (ask list_tools (some m) sess) servers in
        let h = combined_mem t (arrive asked) ((mem-sort_tools t (combined (arrive asked))).0 k) in
        answered-IsOffered t servers (record {
          answer = h.answer;
          tools = h.tools;
          tool = h.tool;
          among = perm-mem (Permᴰ.symm (fair asked)) h.among;
          answers = h.answers;
          offers = h.offers;
          same = h.same;
        })

    mem-gather :
        (t : Tool) (servers : List Server)
        → IsOffered list_tools m sess servers t
        → Memᴰ t (gather list_tools arrive (some m) sess servers)
    unfolding gather
    mem-gather t servers h =
        let asked = map (ask list_tools (some m) sess) servers in
        (mem-sort_tools t (combined (arrive asked))).1 (
          subst (λ u. Memᴰ u (combined (arrive asked))) (sym h.same)
            (mem-combined (ask list_tools (some m) sess h.server) (arrive asked) h.tools h.tool
              (perm-mem (fair asked)
                (mem-map (ask list_tools (some m) sess) h.server servers h.registered))
              (ap (answer_of list_tools) h.acquired ∙ h.lists) h.offers))

abbrev blank_caller : Caller
blank_caller = record { id = []; tenant_id = []; user_id = []; subject_token = [] }

-- The profile lets a call of the tool pass.
abbrev pub Passes : Option Profile → Tool → Type 0
Passes prof t = (on : Bool) → (sess : Caller) → check_profile on sess t.name prof ≡ none

check_profile-default :
    (on : Bool) (sess : Caller) (tool : GoString) (prof : Profile)
    → prof.is_default ≡ true
    → check_profile on sess tool (some prof) ≡ none
unfolding check_profile
check_profile-default on sess tool prof e = ground arith

check_profile-allowed :
    (on : Bool) (sess : Caller) (tool : GoString) (prof : Profile)
    → allows_tool (some prof) tool ≡ true
    → check_profile on sess tool (some prof) ≡ none
unfolding check_profile
check_profile-allowed on sess tool prof h = elim (Bool-cases prof.is_default) [
  | inl e ↦ ground arith
  | inr e ↦ ground arith
]

check_profile-none :
    (on : Bool) (sess : Caller) (tool : GoString) (prof : Profile)
    → prof.is_default ≡ false
    → check_profile on sess tool (some prof) ≡ none
    → allows_tool (some prof) tool ≡ true
unfolding check_profile
check_profile-none on sess tool prof e h = elim (Bool-cases (allows_tool (some prof) tool)) [
  | inl a ↦ a
  | inr a ↦ absurd (ground arith)
]

filter_default :
    (prof : Profile) (tools : List Tool)
    → prof.is_default ≡ true
    → filter_tools_by_profile (some prof) tools ≡ tools
unfolding filter_tools_by_profile
filter_default prof tools e = rw e refl

filter_other :
    (prof : Profile) (tools : List Tool)
    → prof.is_default ≡ false
    → filter_tools_by_profile (some prof) tools ≡ filter (λ t. allows_tool (some prof) t.name) tools
unfolding filter_tools_by_profile
filter_other prof tools e = rw e refl

filter-Passes :
    (prof : Option Profile) (t : Tool) (tools : List Tool)
    → Memᴰ t (filter_tools_by_profile prof tools) ↔ (Memᴰ t tools × Passes prof t)
unfolding filter_tools_by_profile check_profile
filter-Passes none t tools = (λ k. (k, λ on sess. refl), λ h. h.0)
filter-Passes (some prof) t tools = elim (Bool-cases prof.is_default) [
  | inl e ↦
      let same = filter_default prof tools e in
      (
        λ k. (subst (Memᴰ t) same k, λ on sess. check_profile-default on sess t.name prof e),
        λ h. subst (Memᴰ t) (sym same) h.0,
      )
  | inr e ↦
      let same = filter_other prof tools e in
      let (there, back) = mem-filter (λ (u : Tool). allows_tool (some prof) u.name) t tools in
      (
        λ k.
            let (mem, a) = there (subst (Memᴰ t) same k) in
            (mem, λ on sess. check_profile-allowed on sess t.name prof a),
        λ h. subst (Memᴰ t) (sym same) (
            back (h.0, check_profile-none true blank_caller t.name prof e (h.1 true blank_caller))),
      )
]

-- A session without Code Mode, snapshot and kept listing is shown exactly the tools that a server
-- of its tenant offers, under their qualified names, and whose call its profile lets pass.
pub handle_tools_list-IsOffered :
    (list_servers : GoString → Option (List Server)) (list_tools : Client → Option (List Tool))
    (arrive : List ServerTools → List ServerTools)
    → ((rs : List ServerTools) → Permᴰ rs (arrive rs))
    → (m : Manager) (prof : Option Profile) (bound : Option (Option (List ToolInfo)))
      (sess : Caller) (now later : ℕ) (cache : ToolsCache) (servers : List Server) (t : Tool)
    → bound_tools bound ≡ none
    → live_entry now (lookup sess.id cache) ≡ none
    → servers_for list_servers (some m) sess ≡ some servers
    → Memᴰ t (
        shown
          (handle_tools_list list_servers list_tools arrive
            (some m)
            prof
            false
            bound
            sess
            now
            later
            cache).1)
      ↔ (IsOffered list_tools m sess servers t × Passes prof t)
unfolding handle_tools_list list_bound list_cached list_fresh
handle_tools_list-IsOffered list_servers list_tools arrive fair m prof bound sess now later cache
      servers t free stale have =
    rw (free, stale, have)
      (let tools = gather list_tools arrive (some m) sess servers in
        let (there, back) = filter-Passes prof t tools in
        (
          λ k.
              let (mem, pass) = there k in
              (gather_mem list_tools m sess arrive fair t servers mem, pass),
          λ h. back (mem-gather list_tools m sess arrive fair t servers h.0, h.1),
        ))
