-- ===== src/Sipfw/Tables/Replace.antt =====
-- SIPFW_NLAction_RuleReplace
use linux_program_practice.Sipfw.Tables.Delete.{node_live}
use linux_program_practice.Sipfw.Tables.Seek.{Fresh, seek_ne-append}
use linux_program_practice.Sipfw.Memory.{Owned, mark}
use linux_program_practice.Sipfw.Tables.{Store, table_at, rule_replace, replace_at, put_table}
use linux_program_practice.Base.{suc, ◌≡◌, false, some, List, ◌∷◌, ◌++◌, arith, length}
use linux_program_practice.Base.Int.{pos}
use linux_program_practice.Sipfw.Types.{Rule, RuleList}

module _ (s : Store) (rule : Rule) (l : RuleList)
    (found : table_at s.tables rule.chain ≡ some l) where
  -- Replacing number n of a chain that has an n-th rule, where the tables own their nodes and the
  -- node of the request is its own, puts the new rule in its place and frees the old one, whatever
  -- the count says.
  pub rule_replace-number :
      (xs : List Rule) (cur : Rule) (ys : List Rule)
      → Owned s.tables s.live
      → Fresh rule s
      → l.rules ≡ xs ++ cur ∷ ys
      → rule_replace rule (pos (suc (length xs))) s
        ≡ some (record {
          tables = put_table s.tables rule.chain (record l { rules = xs ++ rule ∷ ys });
          live = mark cur.addr false s.live;
        })
  unfolding rule_replace replace_at
  rule_replace-number xs cur ys o fresh e =
      let (a, n) = node_live s rule l xs ys cur o found fresh e in
      ground (arith, a, seek_ne-append 1 (suc (length xs)) xs (cur ∷ ys) (omega arith))
