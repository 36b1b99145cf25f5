-- ===== src/Budget/Ledger/Accounts.antt =====
-- The methods of `Ledger` in internal/budget/ledger.go on pool nodes, organizations and virtual keys.
use tkngate.Base.{ℕ, suc, Bool, not, ◌&&◌, List, [], ◌∷◌, ◌++◌, any, filter, ◌==◌, if◌then◌else◌}
use tkngate.Base.Int.{ℤ, pos, ◌-ℤ◌, ltb_ℤ}
use tkngate.Base.Bytes.{Bytes, ◌=s◌}
use tkngate.Float64.{Float64, whole}
use tkngate.Sql.{failed, unique_violation, no_rows, Result, ok, err, update, delete}
use tkngate.Budget.Models.{
  BudgetZone, green, PoolNode, VirtualKeyRecord, OrganizationRecord, Ledger,
}
use tkngate.Budget.Ledger.{Write, exec}

module _ (F : Float64) where
  unfoldable pub add_pool_node : Bool → PoolNode → Ledger F → Write F
  add_pool_node run node l =
      if not run
      then (err failed, l)
      else if any (λ n. n.node_id =s node.node_id) l.pool_nodes
      then (err unique_violation, l)
      else (ok tt, record l { pool_nodes = l.pool_nodes ++ node ∷ [] })

  -- The rows affected by a DELETE decide between success and `sql.ErrNoRows`.
  unfoldable pub remove_pool_node : Bool → Bytes → Ledger F → Write F
  remove_pool_node run id l =
      if not run
      then (err failed, l)
      else if any (λ n. n.node_id =s id) l.pool_nodes
      then (ok tt, record l { pool_nodes = delete (λ n. n.node_id =s id) l.pool_nodes })
      else (err no_rows, l)

  unfoldable pub get_pool_nodes : Bool → Bytes → Ledger F → Result (List PoolNode)
  get_pool_nodes run provider l =
      if run then ok (filter (λ n. n.provider_type =s provider) l.pool_nodes) else err failed

  pub spend_quota : ℤ → PoolNode → PoolNode
  spend_quota tokens n = record n { remaining_tokens_quota = n.remaining_tokens_quota -ℤ tokens }

  -- The quota of a key that still has some; it may fall below 0.
  unfoldable pub decrement_pool_quota : Bool → Bytes → ℤ → Ledger F → Ledger F
  unfolding spend_quota
  decrement_pool_quota run id tokens l =
      if run
      then record l {
        pool_nodes =
            update (λ n. n.node_id =s id && ltb_ℤ (pos 0) n.remaining_tokens_quota)
              (spend_quota tokens) l.pool_nodes;
      }
      else l

  unfoldable pub create_organization : Bool → ℕ → Bytes → F.Float → Ledger F → Write F
  create_organization run now name limit l =
      if not run
      then (err failed, l)
      else if any (λ o. o.name =s name) l.organizations
      then (err unique_violation, l)
      else (
        ok tt,
        record l {
          organizations =
              l.organizations
              ++ record {
                id = l.next_organization;
                name = name;
                budget_limit_usd = limit;
                consumed_usd = whole F 0;
                created_at = now;
              }
                ∷ [];
          next_organization = suc l.next_organization;
        },
      )

  unfoldable pub delete_organization : Bool → ℕ → Ledger F → Write F
  delete_organization run id l =
      exec F run (λ l. record l { organizations = delete (λ o. o.id == id) l.organizations }) l

  unfoldable pub get_organizations : Bool → Ledger F → Result (List (OrganizationRecord F))
  get_organizations run l = if run then ok l.organizations else err failed

  unfoldable pub register_virtual_key :
      Bool → ℕ → Bytes → Bytes → F.Float → ℤ → Bytes → Ledger F → Write F
  register_virtual_key run now hash name allocated org providers l =
      if not run
      then (err failed, l)
      else if any (λ k. k.key_hash =s hash) l.virtual_keys
      then (err unique_violation, l)
      else (
        ok tt,
        record l {
          virtual_keys =
              l.virtual_keys
              ++ record {
                id = l.next_key;
                key_hash = hash;
                name = name;
                allocated_budget = allocated;
                consumed_budget = whole F 0;
                org_id = org;
                allowed_providers = providers;
                current_state = green;
                created_at = now;
              }
                ∷ [];
          next_key = suc l.next_key;
        },
      )

  unfoldable pub get_virtual_keys : Bool → Ledger F → Result (List (VirtualKeyRecord F))
  get_virtual_keys run l = if run then ok l.virtual_keys else err failed

  pub set_zone : BudgetZone → VirtualKeyRecord F → VirtualKeyRecord F
  set_zone z k = record k { current_state = z }

  unfoldable pub update_virtual_key_zone : Bool → Bytes → BudgetZone → Ledger F → Write F
  unfolding set_zone
  update_virtual_key_zone run hash z l =
      exec F run
        (λ l. record l {
          virtual_keys = update (λ k. k.key_hash =s hash) (set_zone z) l.virtual_keys;
        })
        l

  unfoldable pub revoke_virtual_key : Bool → Bytes → Ledger F → Write F
  revoke_virtual_key run name l =
      if not run
      then (err failed, l)
      else if any (λ k. k.name =s name) l.virtual_keys
      then (ok tt, record l { virtual_keys = delete (λ k. k.name =s name) l.virtual_keys })
      else (err no_rows, l)
