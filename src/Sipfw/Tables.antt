-- ===== src/Sipfw/Tables.antt =====
-- LinuxCode/20/sipfw/module/sipfw_k_nl.c: the handlers SIPFW_NLAction_Rule* of the commands that
-- change the rule tables, and SIPFW_ListDestroy of sipfw_k_common.c.
-- A chain is the list of its nodes. A loop `for(cur = l->rule; …; prev = cur, cur = cur->next)`
-- stops at a cursor: `before` holds the nodes passed, so `prev` is its last node and null where it
-- is empty, and `rest` begins with `cur`, which is null where it is empty.
pub mod Seek
pub mod Good
pub mod Delete
pub mod Insert
pub mod Exact
pub mod Replace
pub mod Flush
pub mod FlushSafety
pub mod InsertSafety
pub mod Safety
use linux_program_practice.Base.{
  ℕ, zero, suc, Bool, ◌&&◌, Option, none, some, List, [], ◌∷◌, ◌++◌, ◌==◌, if◌then◌else◌, ◌>>=◌,
  get_elem?, set, ◌+◌, ◌-◌, ◌*◌, ◌/◌, ◌%◌, ◌^◌, ◌≤◌, ◌<◌, min, ◌≡◌, refl, sym, ap, subst, ◌∙◌, ◌≢◌,
  ◌↔◌, ◌⊎◌, inl, inr, true, false, not, ◌||◌, map, append-nil, append_assoc, arith, ltb, leb,
  ltb→lt, lt→ltb, leb→le, ==_iff, &&_iff, Bool-cases, Option-cases, >>=-eq-some, length, take, drop,
  All, length-append, length-set, get_elem?-set_self, get_elem?-set_ne, All-set, All-get,
  take-append-drop, length-take, length-drop, codes, get_elem?-append, set-append,
}
use linux_program_practice.Base.Int.{ℤ, pos, negsuc, ltb_ℤ, eqb_ℤ, succ, predecessor}
use linux_program_practice.Sipfw.Types.{Rule, RuleList, chain_all}
use linux_program_practice.Sipfw.Memory.{Live, kfree}

-- What the handlers change: sipfw_tables and the allocator.
pub record Store : Type 0 where
  pub tables : List RuleList
  pub live : Live

-- &sipfw_tables[chain], dereferenced: a fault outside the array.
abbrev pub table_at : List RuleList → ℤ → Option RuleList
table_at ts (pos i) = get_elem? ts i
table_at ts (negsuc i) = none

abbrev pub put_table : List RuleList → ℤ → RuleList → List RuleList
put_table ts (pos i) l = set ts i l
put_table ts (negsuc i) l = ts

pub record Cursor : Type 0 where
  pub before : List Rule
  pub rest : List Rule

abbrev pub passed : Rule → Cursor → Cursor
passed r c = record c { before = r ∷ c.before }

-- The loop whose test is `cur != NULL && i != number`.
pub seek_ne : ℕ → ℤ → List Rule → Cursor
seek_ne i number [] = record { before = []; rest = [] }
seek_ne i number (r ∷ rs) =
    if eqb_ℤ (pos i) number
    then record { before = []; rest = r ∷ rs }
    else passed r (seek_ne (suc i) number rs)

-- The loop whose test is `cur != NULL && i <number`.
pub seek_lt : ℕ → ℤ → List Rule → Cursor
seek_lt i number [] = record { before = []; rest = [] }
seek_lt i number (r ∷ rs) =
    if ltb_ℤ (pos i) number
    then passed r (seek_lt (suc i) number rs)
    else record { before = []; rest = r ∷ rs }

-- The test by which the deletion without a number finds its rule.
unfoldable pub same_rule : Rule → Rule → Bool
same_rule cur rule =
    eqb_ℤ cur.action rule.action
    && cur.addtion == rule.addtion
    && eqb_ℤ cur.chain rule.chain
    && cur.source == rule.source
    && cur.dest == rule.dest
    && cur.sport == rule.sport
    && cur.dport == rule.dport
    && cur.protocol == rule.protocol

-- Its loop: it leaves by `break` at the first such node.
pub seek_same : Rule → List Rule → Cursor
seek_same rule [] = record { before = []; rest = [] }
seek_same rule (r ∷ rs) =
    if same_rule r rule then record { before = []; rest = r ∷ rs } else passed r (seek_same rule rs)

-- SIPFW_NLAction_RuleAddpend. `rule->next` is null.
unfoldable pub rule_addpend : Rule → Store → Option Store
rule_addpend rule s = do
  l ← table_at s.tables rule.chain
  some (record s {
    tables =
        put_table s.tables rule.chain
          (record { rules = l.rules ++ rule ∷ []; number = succ l.number });
  })

-- `cur` is taken out of the chain and freed, then `rule` is freed.
pub unlink : Rule → RuleList → Cursor → Store → Option Store
unlink rule l c s = elim c.rest [
  | [] ↦ none
  | cur ∷ next ↦ do
    freed ← kfree cur.addr s.live
    all_freed ← kfree rule.addr freed
    some (record {
      tables =
          put_table s.tables rule.chain
            (record { rules = c.before ++ next; number = predecessor l.number });
      live = all_freed;
    })
]

abbrev pub free_rule : Rule → Store → Option Store
free_rule rule s = do freed ← kfree rule.addr s.live; some (record s { live = freed })

-- The case of a number that fits: without a node at that place only `rule` is freed.
pub delete_at : Rule → RuleList → Cursor → Store → Option Store
unfolding unlink
delete_at rule l c s = elim c.rest [ [] ↦ free_rule rule s | _ ∷ _ ↦ unlink rule l c s ]

-- The case without a number: without an equal rule nothing is done, and `rule` stays allocated.
pub delete_same : Rule → RuleList → Cursor → Store → Option Store
unfolding unlink
delete_same rule l c s = elim c.rest [ [] ↦ some s | _ ∷ _ ↦ unlink rule l c s ]

-- SIPFW_NLAction_RuleDelete
unfoldable pub rule_delete : Rule → ℤ → Store → Option Store
unfolding delete_at delete_same
rule_delete rule number s = do
  l ← table_at s.tables rule.chain
  (if ltb_ℤ l.number number
      then free_rule rule s
      else if eqb_ℤ number (negsuc 0)
      then delete_same rule l (seek_same rule l.rules) s
      else delete_at rule l (seek_ne 1 number l.rules) s)

pub replace_at : Rule → RuleList → Cursor → Store → Option Store
replace_at rule l c s = elim c.rest [
  | [] ↦ some s
  | cur ∷ next ↦ do
    freed ← kfree cur.addr s.live
    some (record {
      tables = put_table s.tables rule.chain (record l { rules = c.before ++ rule ∷ next });
      live = freed;
    })
]

-- SIPFW_NLAction_RuleReplace
unfoldable pub rule_replace : Rule → ℤ → Store → Option Store
unfolding replace_at
rule_replace rule number s = do
  l ← table_at s.tables rule.chain
  (if eqb_ℤ number (negsuc 0)
      then (if ltb_ℤ l.number number then free_rule rule s else some s)
      else replace_at rule l (seek_ne 1 number l.rules) s)

-- `prev->next = rule` behind the last node: a fault on the empty chain.
pub insert_last : Rule → RuleList → Store → Option Store
insert_last rule l s = elim l.rules [
  | [] ↦ none
  | first ∷ others ↦ some (record s {
    tables = put_table s.tables rule.chain (record l { rules = (first ∷ others) ++ rule ∷ [] });
  })
]

-- `prev->next = rule; rule->next = cur->next`: a fault if either pointer is null.
pub insert_at : Rule → RuleList → Cursor → Store → Option Store
insert_at rule l c s = elim c.before [
  | [] ↦ none
  | first ∷ others ↦ elim c.rest [
    | [] ↦ none
    | cur ∷ next ↦ some (record s {
      tables = put_table s.tables rule.chain (record l { rules = (first ∷ others) ++ rule ∷ next });
    })
  ]
]

-- SIPFW_NLAction_RuleInsert
unfoldable pub rule_insert : Rule → ℤ → Store → Option Store
unfolding insert_last insert_at
rule_insert rule number s = do
  l ← table_at s.tables rule.chain
  (if eqb_ℤ number (pos 1)
      then some (record s {
        tables = put_table s.tables rule.chain (record l { rules = rule ∷ l.rules });
      })
      else if ltb_ℤ l.number number
      then insert_last rule l s
      else if eqb_ℤ number (negsuc 0)
      then some s
      else insert_at rule l (seek_lt 1 number l.rules) s)

abbrev pub kfree_if : Option Rule → Live → Option Live
kfree_if none live = some live
kfree_if (some prev) live = kfree prev.addr live

-- The loop that frees a chain, one node behind: `prev` comes from the chain before, and what is
-- returned is `prev` at its end.
pub free_walk : Option Rule → List Rule → Live → Option (Option Rule × Live)
free_walk prev [] live = some (prev, live)
free_walk prev (cur ∷ rest) live = do freed ← kfree_if prev live; free_walk (some cur) rest freed

-- The loop over the chains i … i + n - 1.
pub flush_chains : ℕ → ℤ → Option Rule → Store → Option Store
unfolding free_walk
flush_chains zero i prev s = some s
flush_chains (suc n) i prev s = do
  l ← table_at s.tables i
  w ← free_walk prev l.rules s.live
  flush_chains n (succ i) w.0
      (record { tables = put_table s.tables i (record { rules = []; number = pos 0 }); live = w.1 })

-- SIPFW_NLAction_RuleFlush
unfoldable pub rule_flush : Rule → Store → Option Store
unfolding flush_chains
rule_flush rule s = do
  t ←
      (if eqb_ℤ rule.chain (pos chain_all)
        then flush_chains 3 (pos 0) none s
        else flush_chains 1 rule.chain none s)
  free_rule rule t

-- SIPFW_ListDestroy of sipfw_k_common.c
unfoldable pub list_destroy : Store → Option Store
list_destroy s = flush_chains 3 (pos 0) none s
