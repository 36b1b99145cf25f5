-- ===== src/Budget/Ledger/WellFormed.antt =====
-- The uniqueness that the schema declares, kept by every call that writes to the ledger.
pub mod Charged
pub mod Preserved
use tkngate.Base.{
  ℕ, suc, ◌≡◌, refl, ◌<◌, ◌≤◌, ◌+◌, Bool, true, false, List, [], ◌∷◌, ◌++◌, any, if◌then◌else◌,
  arith, All, All-append, All-map, Bool-cases, ◌==◌, inl, inr,
}
use tkngate.Base.Int.{ℤ}
use tkngate.Base.Bytes.{Bytes, ◌=s◌, =s_iff}
use tkngate.Float64.{Float64}
use tkngate.Sql.{
  Result, ok, update, delete, Distinct, All-update, All-delete, any-All, Distinct-delete,
  Distinct-update, Distinct-append,
}
use tkngate.Budget.Models.{
  BudgetZone, Transaction, PoolNode, SessionState, VirtualKeyRecord, OrganizationRecord, Ledger,
}
use tkngate.Budget.Ledger.{
  Cluster, Runs, is_set, init_ledger, share_spend, insert_transaction, charge_session, charge_key,
  charge_organization, charge_key_and_organization, charge_rows, charge_session_row, charge_key_row,
  charge_organization_row, org_of_key, has_id, record_transaction, reset, ensure_session,
  charge_virtual_key,
}
use tkngate.Budget.Ledger.Accounts.{
  add_pool_node, remove_pool_node, decrement_pool_quota, create_organization, delete_organization,
  register_virtual_key, update_virtual_key_zone, revoke_virtual_key,
}

-- A call that writes, with its arguments.
pub data Call (F : Float64) : Type 0 where
  record_tx : Cluster → Runs → ℕ → Transaction F → Call F
  reset_all : Bool → Bool → Call F
  ensure : Bool → ℕ → Bytes → F.Float → Call F
  add_node : Bool → PoolNode → Call F
  remove_node : Bool → Bytes → Call F
  decrement : Bool → Bytes → ℤ → Call F
  create_org : Bool → ℕ → Bytes → F.Float → Call F
  delete_org : Bool → ℕ → Call F
  register : Bool → ℕ → Bytes → Bytes → F.Float → ℤ → Bytes → Call F
  charge : Bool → Bytes → F.Float → Call F
  set_key_zone : Bool → Bytes → BudgetZone → Call F
  revoke : Bool → Bytes → Call F

module _ (F : Float64) where
  abbrev pub same_node : PoolNode → PoolNode → Bool
  same_node a b = a.node_id =s b.node_id

  abbrev pub same_session : SessionState F → SessionState F → Bool
  same_session a b = a.session_id =s b.session_id

  abbrev pub same_hash : VirtualKeyRecord F → VirtualKeyRecord F → Bool
  same_hash a b = a.key_hash =s b.key_hash

  abbrev pub same_org : OrganizationRecord F → OrganizationRecord F → Bool
  same_org a b = a.name =s b.name

  abbrev pub same_org_id : OrganizationRecord F → OrganizationRecord F → Bool
  same_org_id a b = a.id == b.id

  abbrev pub same_key_id : VirtualKeyRecord F → VirtualKeyRecord F → Bool
  same_key_id a b = a.id == b.id

  pub step : Ledger F → Call F → Ledger F
  step l (record_tx c runs now tx) = (record_transaction F c runs now tx l).1
  step l (reset_all run run_sessions) = (reset F run run_sessions l).1
  step l (ensure run now id allocated) = (ensure_session F run now id allocated l).1
  step l (add_node run node) = (add_pool_node F run node l).1
  step l (remove_node run id) = (remove_pool_node F run id l).1
  step l (decrement run id tokens) = decrement_pool_quota F run id tokens l
  step l (create_org run now name limit) = (create_organization F run now name limit l).1
  step l (delete_org run id) = (delete_organization F run id l).1
  step l (register run now hash name allocated org providers) =
      (register_virtual_key F run now hash name allocated org providers l).1
  step l (charge run hash amount) = (charge_virtual_key F run hash amount l).1
  step l (set_key_zone run hash z) = (update_virtual_key_zone F run hash z l).1
  step l (revoke run name) = (revoke_virtual_key F run name l).1

  pub run_calls : Ledger F → List (Call F) → Ledger F
  run_calls l [] = l
  run_calls l (c ∷ cs) = run_calls (step l c) cs

  -- The UNIQUE and PRIMARY KEY columns, and ids below the counters that give them out.
  pub record IsWellFormed (l : Ledger F) : Type 0 where
    pub nodes : Distinct same_node l.pool_nodes
    pub sessions : Distinct same_session l.sessions
    pub hashes : Distinct same_hash l.virtual_keys
    pub key_ids : Distinct same_key_id l.virtual_keys
    pub key_ids_below : All (λ k. k.id < l.next_key) l.virtual_keys
    pub names : Distinct same_org l.organizations
    pub org_ids : Distinct same_org_id l.organizations
    pub org_ids_below : All (λ o. o.id < l.next_organization) l.organizations

  pub init_ledger-IsWellFormed : IsWellFormed (init_ledger F)
  init_ledger-IsWellFormed = record {
    nodes = tt;
    sessions = tt;
    hashes = tt;
    key_ids = tt;
    key_ids_below = tt;
    names = tt;
    org_ids = tt;
    org_ids_below = tt;
  }

  -- A new row whose column value no row has.
  append_new {ℓ} :
      {A : Type ℓ} (col : A → Bytes) (xs : List A) (y : A)
      → any (λ x. col x =s col y) xs ≡ false
      → Distinct (λ a b. col a =s col b) xs
      → Distinct (λ a b. col a =s col b) (xs ++ y ∷ [])
  append_new col xs y h d =
      Distinct-append (λ a b. col a =s col b) xs y (any-All (λ x. col x =s col y) xs h) d

  -- A new row with an id from the counter.
  append_next {ℓ} :
      {A : Type ℓ} (col : A → ℕ) (xs : List A) (y : A)
      → All (λ x. col x < col y) xs
      → Distinct (λ a b. col a == col b) xs
      → Distinct (λ a b. col a == col b) (xs ++ y ∷ [])
  append_next col xs y h d =
      Distinct-append (λ a b. col a == col b) xs y
        (All-map (λ x. col x < col y) (λ x. (col x == col y) ≡ false) (λ x k. ground arith) xs h) d

  append_below {ℓ} :
      {A : Type ℓ} (col : A → ℕ) (xs : List A) (y : A) (n : ℕ)
      → col y ≡ n
      → All (λ x. col x < n) xs
      → All (λ x. col x < suc n) (xs ++ y ∷ [])
  append_below col xs y n e h =
      All-append (λ x. col x < suc n) xs (y ∷ [])
        (All-map (λ x. col x < n) (λ x. col x < suc n) (λ x k. omega arith) xs h) (omega arith, tt)

  -- One table replaced, the others as they were.
  with_sessions :
      (l : Ledger F) (ss : List (SessionState F))
      → Distinct same_session ss
      → IsWellFormed l
      → IsWellFormed (record l { sessions = ss })
  with_sessions l ss d w = record {
    nodes = w.nodes;
    sessions = d;
    hashes = w.hashes;
    key_ids = w.key_ids;
    key_ids_below = w.key_ids_below;
    names = w.names;
    org_ids = w.org_ids;
    org_ids_below = w.org_ids_below;
  }

  with_nodes :
      (l : Ledger F) (ns : List PoolNode)
      → Distinct same_node ns
      → IsWellFormed l
      → IsWellFormed (record l { pool_nodes = ns })
  with_nodes l ns d w = record {
    nodes = d;
    sessions = w.sessions;
    hashes = w.hashes;
    key_ids = w.key_ids;
    key_ids_below = w.key_ids_below;
    names = w.names;
    org_ids = w.org_ids;
    org_ids_below = w.org_ids_below;
  }

  with_keys :
      (l : Ledger F) (ks : List (VirtualKeyRecord F)) (n : ℕ)
      → Distinct same_hash ks
      → Distinct same_key_id ks
      → All (λ k. k.id < n) ks
      → IsWellFormed l
      → IsWellFormed (record l { virtual_keys = ks; next_key = n })
  with_keys l ks n d e b w = record {
    nodes = w.nodes;
    sessions = w.sessions;
    hashes = d;
    key_ids = e;
    key_ids_below = b;
    names = w.names;
    org_ids = w.org_ids;
    org_ids_below = w.org_ids_below;
  }

  with_organizations :
      (l : Ledger F) (os : List (OrganizationRecord F)) (n : ℕ)
      → Distinct same_org os
      → Distinct same_org_id os
      → All (λ o. o.id < n) os
      → IsWellFormed l
      → IsWellFormed (record l { organizations = os; next_organization = n })
  with_organizations l os n d e b w = record {
    nodes = w.nodes;
    sessions = w.sessions;
    hashes = w.hashes;
    key_ids = w.key_ids;
    key_ids_below = w.key_ids_below;
    names = d;
    org_ids = e;
    org_ids_below = b;
  }

  -- An update of the keys that leaves hash and id alone, and one of the organizations that leaves
  -- name and id alone.
  update_keys :
      (l : Ledger F) (p : VirtualKeyRecord F → Bool) (f : VirtualKeyRecord F → VirtualKeyRecord F)
      → ((k : VirtualKeyRecord F) → (f k).key_hash ≡ k.key_hash)
      → ((k : VirtualKeyRecord F) → (f k).id ≡ k.id)
      → IsWellFormed l
      → IsWellFormed (record l { virtual_keys = update p f l.virtual_keys })
  update_keys l p f hash id w =
      with_keys l (update p f l.virtual_keys) l.next_key
        (Distinct-update same_hash p f (λ a b. rw (hash a)) (λ a b. rw (hash b)) l.virtual_keys
          w.hashes)
        (Distinct-update same_key_id p f (λ a b. rw (id a)) (λ a b. rw (id b)) l.virtual_keys
          w.key_ids)
        (All-update (λ k. k.id < l.next_key) p f (λ a k. rw (id a) k) l.virtual_keys
          w.key_ids_below)
        w

  update_organizations :
      (l : Ledger F) (p : OrganizationRecord F → Bool)
      (f : OrganizationRecord F → OrganizationRecord F)
      → ((o : OrganizationRecord F) → (f o).name ≡ o.name)
      → ((o : OrganizationRecord F) → (f o).id ≡ o.id)
      → IsWellFormed l
      → IsWellFormed (record l { organizations = update p f l.organizations })
  update_organizations l p f name id w =
      with_organizations l (update p f l.organizations) l.next_organization
        (Distinct-update same_org p f (λ a b. rw (name a)) (λ a b. rw (name b)) l.organizations
          w.names)
        (Distinct-update same_org_id p f (λ a b. rw (id a)) (λ a b. rw (id b)) l.organizations
          w.org_ids)
        (All-update (λ o. o.id < l.next_organization) p f (λ a k. rw (id a) k) l.organizations
          w.org_ids_below)
        w
