-- ===== src/Gateway/Listing/Answers.antt =====
-- The tools of the answers of several servers, combined and sorted.

use mathlib.Core.List.Memᴰ
use portico_gateway.Base.{
  str_lt, Option, none, some, List, [], ◌∷◌, ◌++◌, ◌≡◌, refl, sym, subst, ◌↔◌, ◌⊎◌, inl, inr, Memᴰ,
  Bool-cases, GoString, Memᴰ-append_left, Memᴰ-append_right, Memᴰ-append, map_mem, mem-map,
}
use portico_gateway.Snapshots.{Tool, insert_tool, sort_tools}
use portico_gateway.Gateway.Listing.{ServerTools, qualify, qualified, combined}

-- Sorting keeps the tools.
insert_tool-mem : (t x : Tool) (ys : List Tool) → Memᴰ t (insert_tool x ys) → (t ≡ x) ⊎ Memᴰ t ys
unfolding insert_tool
insert_tool-mem t x [] m = Memᴰ.cases_cons m
insert_tool-mem t x (y ∷ ys) m = elim (Bool-cases (str_lt y.name x.name)) [
  | inl e ↦ elim (Memᴰ.cases_cons (rw e at m)) [
    | inl q ↦ inr (Memᴰ.head q)
    | inr r ↦ elim (insert_tool-mem t x ys r) [ inl q ↦ inl q | inr k ↦ inr (Memᴰ.tail k) ]
  ]
  | inr e ↦ Memᴰ.cases_cons (rw e at m)
]

mem-insert_tool : (t x : Tool) (ys : List Tool) → (t ≡ x) ⊎ Memᴰ t ys → Memᴰ t (insert_tool x ys)
unfolding insert_tool
mem-insert_tool t x [] (inl q) = Memᴰ.head q
mem-insert_tool t x [] (inr m) = elim m [ ]
mem-insert_tool t x (y ∷ ys) h = elim (Bool-cases (str_lt y.name x.name)) [
  | inl e ↦ rw e (elim h [
    | inl q ↦ Memᴰ.tail (mem-insert_tool t x ys (inl q))
    | inr m ↦ elim (Memᴰ.cases_cons m) [
      | inl q ↦ Memᴰ.head q
      | inr r ↦ Memᴰ.tail (mem-insert_tool t x ys (inr r))
    ]
  ])
  | inr e ↦ rw e (elim h [ inl q ↦ Memᴰ.head q | inr m ↦ Memᴰ.tail m ])
]

pub mem-sort_tools : (t : Tool) (ts : List Tool) → Memᴰ t (sort_tools ts) ↔ Memᴰ t ts
unfolding sort_tools
mem-sort_tools t [] = (λ m. m, λ m. m)
mem-sort_tools t (x ∷ ts) =
    let (there, back) = mem-sort_tools t ts in
    (
      λ m. elim (insert_tool-mem t x (sort_tools ts) m) [
        | inl q ↦ Memᴰ.head q
        | inr r ↦ Memᴰ.tail (there r)
      ],
      λ m.
          mem-insert_tool t x (sort_tools ts)
            (elim (Memᴰ.cases_cons m) [ inl q ↦ inl q | inr r ↦ inr (back r) ]),
    )

-- Some answer of the list holds the tool.
pub record IsAnswered (t : Tool) (rs : List ServerTools) : Type 0 where
  pub answer : ServerTools
  pub tools : List Tool
  pub tool : Tool
  pub among : Memᴰ answer rs
  pub answers : answer.tools ≡ some tools
  pub offers : Memᴰ tool tools
  pub same : t ≡ qualify answer.server_id tool

qualified_mem :
    (t : Tool) (server : GoString) (o : Option (List Tool))
    → Memᴰ t (qualified server o)
    → (tools : List Tool) × ((tool : Tool) × ((o ≡ some tools)
          × (Memᴰ tool tools × (t ≡ qualify server tool))))
qualified_mem t server none m = elim m [ ]
qualified_mem t server (some tools) m =
    let (tool, (k, q)) = map_mem (qualify server) t tools m in (tools, (tool, (refl, (k, q))))

pub combined_mem : (t : Tool) (rs : List ServerTools) → Memᴰ t (combined rs) → IsAnswered t rs
combined_mem t [] m = elim m [ ]
combined_mem t (r ∷ rs) m = elim (Memᴰ-append (qualified r.server_id r.tools) (combined rs) m) [
  | inl k ↦
      let (tools, (tool, (e, (o, q)))) = qualified_mem t r.server_id r.tools k in
      record {
        answer = r;
        tools = tools;
        tool = tool;
        among = Memᴰ.head refl;
        answers = e;
        offers = o;
        same = q;
      }
  | inr k ↦
      let h = combined_mem t rs k in
      record {
        answer = h.answer;
        tools = h.tools;
        tool = h.tool;
        among = Memᴰ.tail h.among;
        answers = h.answers;
        offers = h.offers;
        same = h.same;
      }
]

pub mem-combined :
    (r : ServerTools) (rs : List ServerTools) (tools : List Tool) (tool : Tool)
    → Memᴰ r rs
    → r.tools ≡ some tools
    → Memᴰ tool tools
    → Memᴰ (qualify r.server_id tool) (combined rs)
mem-combined r [] tools tool m e o = elim m [ ]
mem-combined r (z ∷ rs) tools tool (Memᴰ.head q) e o =
    subst
      (λ (w : ServerTools).
        Memᴰ (qualify r.server_id tool) (qualified w.server_id w.tools ++ combined rs))
      q
      (Memᴰ-append_left (qualified r.server_id r.tools) (combined rs) (
        subst (λ o. Memᴰ (qualify r.server_id tool) (qualified r.server_id o)) (sym e)
          (mem-map (qualify r.server_id) tool tools o)))
mem-combined r (z ∷ rs) tools tool (Memᴰ.tail m) e o =
    Memᴰ-append_right (qualified z.server_id z.tools) (combined rs)
      (mem-combined r rs tools tool m e o)
