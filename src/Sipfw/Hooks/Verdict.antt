-- ===== src/Sipfw/Hooks/Verdict.antt =====
-- The verdicts of the hooks.
use linux_program_practice.Sipfw.Clock.Calendar.{localtime_outside}
use linux_program_practice.Sipfw.Clock.{local_seconds, localtime}
use linux_program_practice.Sipfw.Match.{is_match}
use linux_program_practice.Sipfw.Match.First.{Decides, is_match-Decides}
use linux_program_practice.Sipfw.LogFile.{LogEnv, log_append, LogFile, LogLine, action_name_of}
use linux_program_practice.Base.{
  ℕ, ◌+◌, ◌/◌, ◌%◌, ◌^◌, ◌≤◌, ◌<◌, ◌≡◌, refl, ◌≢◌, ◌⊎◌, inl, inr, false, not, Option, none, some,
  List, arith, Bool-cases, Option-cases, ◌>>=◌, >>=-eq-some, get_elem?, set, get_elem?-set_ne, sym,
  ap, ◌∙◌,
}
use linux_program_practice.Base.Int.{ℤ, pos, eqb_ℤ, eqb_ℤ_iff}
use linux_program_practice.Sipfw.Types.{
  Rule, SkBuff, chain_input, RuleList, chain_output, chain_forward, Conf,
}
use linux_program_practice.Sipfw.Hooks.{
  post_routing, pre_routing, HookPoint, Monitor, filter_on, sipfw_hooks, forward, record_found,
  action_of, local_in, local_in, hook_forward, nf_accept, local_out, pre_routing,
}

-- The chain that each hook searches. That of `forward` stands behind its `return`.
abbrev pub chain_of : HookPoint → ℕ
chain_of local_in = chain_input
chain_of _ = chain_output

-- A hit is counted, in 32 bits, and logged; nothing else changes.
abbrev pub Records : LogEnv → SkBuff → Option Rule → Monitor → Monitor → Type 0
Records env skb none m n = n ≡ m
Records env skb (some r) m n =
    (log_append env m.conf skb r m.log ≡ some n.log)
    × (n.conf ≡ record m.conf { hit_number = (m.conf.hit_number + 1) % 2 ^ 32 })
    × (n.tables ≡ m.tables)
    × (n.frames ≡ m.frames)

some_injective : {A : Type 0} {a b : A} → some a ≡ some b → a ≡ b
some_injective q = cc

record_found-Records :
    (env : LogEnv) (skb : SkBuff) (o : Option Rule) (m n : Monitor)
    → record_found env skb o m ≡ some n
    → Records env skb o m n
record_found-Records env skb none m n e = ground arith
record_found-Records env skb (some r) m n e =
    let (log, logged, e') = >>=-eq-some (log_append env m.conf skb r m.log) _ e in
    let same : log ≡ n.log = ap (λ (x : Monitor). x.log) (some_injective e') in
    (
      logged ∙ ap some same,
      ap (λ (x : Monitor). x.conf) (some_injective (sym e')),
      ap (λ (x : Monitor). x.tables) (some_injective (sym e')),
      ap (λ (x : Monitor). x.frames) (some_injective (sym e')),
    )

-- What makes the logging of a hit fault: the log is not paused and its file opens, but the time is
-- outside of the table of years, or the action has no name.
pub record Unlogged (env : LogEnv) (cf : Conf) (r : Rule) : Type 0 where
  pub running : cf.log_pause ≡ pos 0
  pub file : LogFile
  pub opens : env.file ≡ some file
  pub no_text : (localtime env.now ≡ none) ⊎ (action_name_of r.action ≡ none)

log_append-Unlogged :
    (env : LogEnv) (cf : Conf) (skb : SkBuff) (r : Rule) (log : List LogLine)
    → log_append env cf skb r log ≡ none
    → Unlogged env cf r
unfolding log_append
log_append-Unlogged env cf skb r log e = elim (Bool-cases (eqb_ℤ cf.log_pause (pos 0))) [
  | inr paused ↦ cc (rw paused at e)
  | inl on ↦ elim (Option-cases env.file) [
    | inl closed ↦ cc (rw closed at (rw on at e))
    | inr (f, opens) ↦
        let e1 = rw opens at (rw on at e) in
        record {
          running = (eqb_ℤ_iff cf.log_pause (pos 0)).0 on;
          file = f;
          opens = opens;
          no_text = elim (Option-cases (localtime env.now)) [
            | inl outside ↦ inl outside
            | inr (cur, now) ↦ elim (Option-cases (action_name_of r.action)) [
              | inl no_name ↦ inr no_name
              | inr (name, named) ↦ cc (rw named at (rw now at e1))
            ]
          ];
        }
  ]
]

-- Every hook but that of forwarding is the filter on its chain.
sipfw_hooks-filter_on :
    (h : HookPoint) (env : LogEnv) (skb : SkBuff) (frame : List ℕ) (m : Monitor)
    → h ≢ forward
    → sipfw_hooks h env skb frame m ≡ filter_on (chain_of h) env skb m
unfolding sipfw_hooks
sipfw_hooks-filter_on local_in env skb frame m n = refl
sipfw_hooks-filter_on local_out env skb frame m n = refl
sipfw_hooks-filter_on forward env skb frame m n = absurd (n refl)
sipfw_hooks-filter_on pre_routing env skb frame m n = refl
sipfw_hooks-filter_on post_routing env skb frame m n = refl

-- What a hook that filters promises of its verdict `v` and of the state `n` after it.
pub record Filtered (env : LogEnv) (skb : SkBuff) (l : RuleList) (m : Monitor) (v : ℤ) (n : Monitor)
    : Type 0 where
  pub found : Option Rule
  pub first : Decides skb l.rules found
  pub verdict : v ≡ action_of m.conf found
  pub recorded : Records env skb found m n

-- What a hook on the chain `l` ends with.
pub data Verdict (env : LogEnv) (skb : SkBuff) (l : RuleList) (m : Monitor)
    : Option (ℤ × Monitor) → Type 0 where
  given : (v : ℤ) (n : Monitor) → Filtered env skb l m v n → Verdict env skb l m (some (v, n))
  faulted :
      (r : Rule) → Decides skb l.rules (some r) → Unlogged env m.conf r → Verdict env skb l m none

found-Verdict :
    (env : LogEnv) (skb : SkBuff) (l : RuleList) (m : Monitor) (o : Option Rule)
    → Decides skb l.rules o
    → Verdict env skb l m (record_found env skb o m >>= λ n. some (action_of m.conf o, n))
found-Verdict env skb l m none first =
    given (action_of m.conf none) m
      (record { found = none; first = first; verdict = refl; recorded = refl })
found-Verdict env skb l m (some r) first = elim (Option-cases (log_append env m.conf skb r m.log)) [
  | inl fails ↦ rw fails (faulted r first (log_append-Unlogged env m.conf skb r m.log fails))
  | inr (log, works) ↦ rw works (
      given r.action
        (record m {
          conf = record m.conf { hit_number = (m.conf.hit_number + 1) % 2 ^ 32 };
          log = log;
        })
        (record {
          found = some r;
          first = first;
          verdict = refl;
          recorded = (works, refl, refl, refl);
        }))
]

-- While the firewall is valid, a hook other than that of forwarding, whose chain exists, either
-- returns or faults. Where it returns, it gives the action of the first rule of its chain that applies
-- to the packet, which it logs and counts, and the default action without any change where none
-- applies. It faults only where a rule applies, the log is not paused and its file opens, but the time
-- is outside of the table of years or the action has no name.
pub sipfw_hooks-Filtered :
    (h : HookPoint) (env : LogEnv) (skb : SkBuff) (frame : List ℕ) (m : Monitor) (l : RuleList)
    → h ≢ forward
    → m.conf.invalid ≡ pos 0
    → get_elem? m.tables (chain_of h) ≡ some l
    → Verdict env skb l m (sipfw_hooks h env skb frame m)
unfolding filter_on
sipfw_hooks-Filtered h env skb frame m l other valid searched =
    let on : not (eqb_ℤ m.conf.invalid (pos 0)) ≡ false = ground arith in
    rw (sipfw_hooks-filter_on h env skb frame m other, on, searched)
      (found-Verdict env skb l m (is_match skb l.rules) (is_match-Decides skb l.rules))

log_append_paused :
    (env : LogEnv) (cf : Conf) (skb : SkBuff) (r : Rule) (log : List LogLine)
    → cf.log_pause ≢ pos 0
    → log_append env cf skb r log ≡ some log
unfolding log_append
log_append_paused env cf skb r log p = ground arith

record_found_paused :
    (env : LogEnv) (skb : SkBuff) (o : Option Rule) (m : Monitor)
    → m.conf.log_pause ≢ pos 0
    → (n : Monitor) × (record_found env skb o m ≡ some n)
record_found_paused env skb none m p = (m, refl)
record_found_paused env skb (some r) m p = (
  record m { conf = record m.conf { hit_number = (m.conf.hit_number + 1) % 2 ^ 32 } },
  rw (log_append_paused env m.conf skb r m.log p),
)

-- With the log paused such a hook returns for every packet, if its chain is there.
pub sipfw_hooks_paused :
    (h : HookPoint) (env : LogEnv) (skb : SkBuff) (frame : List ℕ) (m : Monitor) (l : RuleList)
    → h ≢ forward
    → m.conf.log_pause ≢ pos 0
    → get_elem? m.tables (chain_of h) ≡ some l
    → (r : ℤ × Monitor) × (sipfw_hooks h env skb frame m ≡ some r)
unfolding filter_on
sipfw_hooks_paused h env skb frame m l other paused found =
    let (n, e) = record_found_paused env skb (is_match skb l.rules) m paused in
    elim (Bool-cases (eqb_ℤ m.conf.invalid (pos 0))) [
      | inl valid ↦ (
        (action_of m.conf (is_match skb l.rules), n),
        rw (sipfw_hooks-filter_on h env skb frame m other, valid, found, e),
      )
      | inr off ↦ ((nf_accept, m), rw (sipfw_hooks-filter_on h env skb frame m other, off))
    ]

abbrev pub verdict_of : Option (ℤ × Monitor) → Option ℤ
verdict_of none = none
verdict_of (some (v, n)) = some v

record_found_tables :
    (env : LogEnv) (skb : SkBuff) (o : Option Rule) (v : ℤ) (m : Monitor) (ts : List RuleList)
    → verdict_of (record_found env skb o (record m { tables = ts }) >>= λ n. some (v, n))
      ≡ verdict_of (record_found env skb o m >>= λ n. some (v, n))
record_found_tables env skb none v m ts = refl
record_found_tables env skb (some r) v m ts = ground arith

filter_on-set_forward :
    (i : ℕ) (env : LogEnv) (skb : SkBuff) (m : Monitor) (l : RuleList)
    → chain_forward ≢ i
    → verdict_of (filter_on i env skb (record m { tables = set m.tables chain_forward l }))
      ≡ verdict_of (filter_on i env skb m)
unfolding filter_on
filter_on-set_forward i env skb m l ne =
    let same = get_elem?-set_ne m.tables chain_forward i l ne in
    elim (Bool-cases (eqb_ℤ m.conf.invalid (pos 0))) [
      | inr off ↦ rw off
      | inl valid ↦ elim (Option-cases (get_elem? m.tables i)) [
        | inl missing ↦ rw (valid, same, missing)
        | inr (c, found) ↦
            rw (valid, same, found)
              (record_found_tables env skb (is_match skb c.rules)
                (action_of m.conf (is_match skb c.rules)) m (set m.tables chain_forward l))
      ]
    ]

-- The rules of the FORWARD chain decide no packet: with any other FORWARD chain every hook gives the
-- same verdict.
pub sipfw_hooks-set_forward :
    (h : HookPoint) (env : LogEnv) (skb : SkBuff) (frame : List ℕ) (m : Monitor) (l : RuleList)
    → verdict_of (sipfw_hooks h env skb frame (record m { tables = set m.tables chain_forward l }))
      ≡ verdict_of (sipfw_hooks h env skb frame m)
unfolding sipfw_hooks
sipfw_hooks-set_forward local_in env skb frame m l =
    filter_on-set_forward chain_input env skb m l (omega arith)
sipfw_hooks-set_forward forward env skb frame m l = unfold hook_forward in ground arith
sipfw_hooks-set_forward _ env skb frame m l =
    filter_on-set_forward chain_output env skb m l (omega arith)

-- A forwarded packet gets its verdict whatever the rules and the configuration are.
pub sipfw_hooks_forward :
    (env : LogEnv) (skb : SkBuff) (frame : List ℕ) (m n : Monitor)
    → verdict_of (sipfw_hooks forward env skb frame m)
      ≡ verdict_of (sipfw_hooks forward env skb frame n)
unfolding sipfw_hooks
sipfw_hooks_forward env skb frame m n = unfold hook_forward in ground arith

-- A packet to which a rule of the chain applies makes a hook other than that of forwarding fault, in
-- a valid firewall whose log is not paused and whose log file opens, on every day outside the table
-- of years.
pub sipfw_hooks_unlogged :
    (h : HookPoint) (env : LogEnv) (skb : SkBuff) (frame : List ℕ) (m : Monitor) (l : RuleList)
    (r : Rule) (f : LogFile)
    → h ≢ forward
    → m.conf.invalid ≡ pos 0
    → get_elem? m.tables (chain_of h) ≡ some l
    → is_match skb l.rules ≡ some r
    → m.conf.log_pause ≡ pos 0
    → env.file ≡ some f
    → (local_seconds env.now / 86400 ≤ 13514) ⊎ (15340 < local_seconds env.now / 86400)
    → sipfw_hooks h env skb frame m ≡ none
unfolding filter_on log_append
sipfw_hooks_unlogged h env skb frame m l r f other valid found hit on opens day =
    ground (arith, sipfw_hooks-filter_on h env skb frame m other, localtime_outside env.now day)
