-- ===== src/Budget/Ledger/Charges.antt =====
-- Whom `RecordTransaction` charges: one session, one virtual key and that key's organization.
use mathlib.Core.Option
use tkngate.Base.{
  find?, ap, ◌∙◌, ℕ, ◌≡◌, refl, sym, Bool, true, false, ◌&&◌, Option, none, some, List, [], ◌∷◌,
  if◌then◌else◌, arith, ◌==◌,
}
use tkngate.Base.Int.{ℤ, pos, negsuc}
use tkngate.Base.Bytes.{Bytes, ◌=s◌, =s_iff}
use tkngate.Float64.{Float64}
use tkngate.Sql.{find?-update, update, column, column-update}
use tkngate.Budget.Models.{Transaction, SessionState, VirtualKeyRecord, OrganizationRecord, Ledger}
use tkngate.Budget.Ledger.{
  Cluster, Runs, is_set, share_spend, insert_transaction, charge_session, charge_key,
  charge_organization, charge_key_and_organization, charge_rows, charge_session_row, charge_key_row,
  charge_organization_row, org_of_key, has_id, record_transaction,
}

module _ (F : Float64) where
  -- The amount consumed, as the rows of the three tables hold it.
  pub session_row_spend : Bytes → Ledger F → Option F.Float
  session_row_spend id l = column (λ s. s.consumed_budget) (λ s. s.session_id =s id) l.sessions

  pub key_spend : Bytes → Ledger F → Option F.Float
  key_spend hash l = column (λ k. k.consumed_budget) (λ k. k.key_hash =s hash) l.virtual_keys

  pub organization_spend : ℕ → Ledger F → Option F.Float
  organization_spend n l = column (λ o. o.consumed_usd) (λ o. o.id == n) l.organizations

  -- The amount after a charge that concerns it or does not.
  abbrev pub charged : Bool → F.Float → Option F.Float → Option F.Float
  charged b cost o = Option.map (λ c. if b then F.add c cost else c) o

  charge_session-session_row_spend :
      (id j : Bytes) (cost : F.Float) (l : Ledger F)
      → session_row_spend j (charge_session F id cost l)
        ≡ charged (id =s j) cost (session_row_spend j l)
  unfolding session_row_spend charge_session
  charge_session-session_row_spend id j cost l =
      column-update (λ s. s.consumed_budget) (λ s. s.session_id =s j) (λ s. s.session_id =s id)
        (charge_session_row F cost) (λ c. F.add c cost) (id =s j) (λ x. refl) (λ x. refl)
        (λ x h. ground (arith, =s_iff x.session_id j, =s_iff x.session_id id, =s_iff id j))
        l.sessions

  charge_key-key_spend :
      (hash h : Bytes) (cost : F.Float) (l : Ledger F)
      → key_spend h (charge_key F hash cost l) ≡ charged (hash =s h) cost (key_spend h l)
  unfolding key_spend charge_key
  charge_key-key_spend hash h cost l =
      column-update (λ k. k.consumed_budget) (λ k. k.key_hash =s h) (λ k. k.key_hash =s hash)
        (charge_key_row F cost) (λ c. F.add c cost) (hash =s h) (λ x. refl) (λ x. refl)
        (λ x e. ground (arith, =s_iff x.key_hash h, =s_iff x.key_hash hash, =s_iff hash h))
        l.virtual_keys

  -- Whether a key belongs to organization n.
  pub belongs : Option ℤ → ℕ → Bool
  belongs none n = false
  belongs (some (pos m)) n = m == n
  belongs (some other) n = false

  has_id-belongs :
      (org : Option ℤ) (n : ℕ) (o : OrganizationRecord F)
      → (o.id == n) ≡ true
      → has_id F org o ≡ belongs org n
  unfolding has_id belongs
  has_id-belongs none n o h = refl
  has_id-belongs (some (pos m)) n o h = ground arith
  has_id-belongs (some (negsuc m)) n o h = refl

  charge_organization-organization_spend :
      (hash : Bytes) (n : ℕ) (cost : F.Float) (l : Ledger F)
      → organization_spend n (charge_organization F hash cost l)
        ≡ charged (belongs (org_of_key F hash l.virtual_keys) n) cost (organization_spend n l)
  unfolding organization_spend charge_organization
  charge_organization-organization_spend hash n cost l =
      column-update (λ o. o.consumed_usd) (λ o. o.id == n)
        (has_id F (org_of_key F hash l.virtual_keys)) (charge_organization_row F cost)
        (λ c. F.add c cost) (belongs (org_of_key F hash l.virtual_keys) n) (λ x. refl) (λ x. refl)
        (λ x h. has_id-belongs (org_of_key F hash l.virtual_keys) n x h) l.organizations

  charged-false : (cost : F.Float) (o : Option F.Float) → charged false cost o ≡ o
  charged-false cost none = refl
  charged-false cost (some v) = refl

  org_of_key-charge_key :
      (hash h : Bytes) (cost : F.Float) (ks : List (VirtualKeyRecord F))
      → org_of_key F h (update (λ k. k.key_hash =s hash) (charge_key_row F cost) ks)
        ≡ org_of_key F h ks
  unfolding org_of_key update charge_key_row
  org_of_key-charge_key hash h cost [] = refl
  org_of_key-charge_key hash h cost (k ∷ ks) = ground (arith, org_of_key-charge_key hash h cost ks)

  module _ (c : Cluster) (runs : Runs) (now : ℕ) (tx : Transaction F) (l : Ledger F) where
    after : Ledger F
    after = (record_transaction F c runs now tx l).1

    -- The tables after a call, as the statements that ran leave them.
    after-sessions : after.sessions ≡ (
        if runs.insert_row && (is_set tx.session_id && runs.session_row)
        then (charge_session F tx.session_id tx.estimated_cost_usd l).sessions
        else l.sessions)
    unfolding after record_transaction charge_rows charge_key_and_organization charge_session
        charge_key charge_organization insert_transaction share_spend
    after-sessions = ground arith

    after-virtual_keys : after.virtual_keys ≡ (
        if runs.insert_row && (is_set tx.virtual_key_hash && runs.key_row)
        then (charge_key F tx.virtual_key_hash tx.estimated_cost_usd l).virtual_keys
        else l.virtual_keys)
    unfolding after record_transaction charge_rows charge_key_and_organization charge_session
        charge_key charge_organization insert_transaction share_spend
    after-virtual_keys = ground arith

    after-organizations : after.organizations ≡ (
        if runs.insert_row && (is_set tx.virtual_key_hash && runs.organization_row)
        then (charge_organization F tx.virtual_key_hash tx.estimated_cost_usd l).organizations
        else l.organizations)
    unfolding after record_transaction charge_rows charge_key_and_organization charge_session
        charge_key charge_organization insert_transaction share_spend
    after-organizations = ground (
      arith,
      org_of_key-charge_key tx.virtual_key_hash tx.virtual_key_hash tx.estimated_cost_usd
          l.virtual_keys,
    )

  choose {ℓ} :
      {A : Type ℓ} (b d : Bool) (f : List A → Option F.Float) (cost : F.Float) (xs ys : List A)
      → f ys ≡ charged d cost (f xs)
      → f (if b then ys else xs) ≡ charged (b && d) cost (f xs)
  choose true d f cost xs ys e = e
  choose false d f cost xs ys e = sym (charged-false cost (f xs))

  -- A transaction charges its own session, its own virtual key and that key's organization with its
  -- cost, each only if the INSERT and the UPDATE of that row were executed; the rows of every other
  -- session, key and organization keep what they have consumed.
  pub record_transaction-charges :
      (c : Cluster) (runs : Runs) (now : ℕ) (tx : Transaction F) (l : Ledger F) (j h : Bytes)
      (n : ℕ)
      → let l' = (record_transaction F c runs now tx l).1 in
        (session_row_spend j l'
          ≡ charged
              ((runs.insert_row && (is_set tx.session_id && runs.session_row))
                && (tx.session_id =s j))
              tx.estimated_cost_usd
              (session_row_spend j l))
        × (key_spend h l'
            ≡ charged
                ((runs.insert_row && (is_set tx.virtual_key_hash && runs.key_row))
                  && (tx.virtual_key_hash =s h))
                tx.estimated_cost_usd
                (key_spend h l))
        × (organization_spend n l'
            ≡ charged
                ((runs.insert_row && (is_set tx.virtual_key_hash && runs.organization_row))
                  && belongs (org_of_key F tx.virtual_key_hash l.virtual_keys) n)
                tx.estimated_cost_usd
                (organization_spend n l))
  unfolding session_row_spend key_spend organization_spend after
  record_transaction-charges c runs now tx l j h n =
      let cost = tx.estimated_cost_usd in
      let org = org_of_key F tx.virtual_key_hash l.virtual_keys in
      let of_session : List (SessionState F) → Option F.Float =
        column (λ s. s.consumed_budget) (λ s. s.session_id =s j) in
      let of_key : List (VirtualKeyRecord F) → Option F.Float =
        column (λ k. k.consumed_budget) (λ k. k.key_hash =s h) in
      let of_organization : List (OrganizationRecord F) → Option F.Float =
        column (λ o. o.consumed_usd) (λ o. o.id == n) in
      (
        ap of_session (after-sessions c runs now tx l)
            ∙ choose (runs.insert_row && (is_set tx.session_id && runs.session_row))
                (tx.session_id =s j) of_session cost l.sessions
                (charge_session F tx.session_id cost l).sessions
                (charge_session-session_row_spend tx.session_id j cost l),
        ap of_key (after-virtual_keys c runs now tx l)
            ∙ choose (runs.insert_row && (is_set tx.virtual_key_hash && runs.key_row))
                (tx.virtual_key_hash =s h) of_key cost l.virtual_keys
                (charge_key F tx.virtual_key_hash cost l).virtual_keys
                (charge_key-key_spend tx.virtual_key_hash h cost l),
        ap of_organization (after-organizations c runs now tx l)
            ∙ choose (runs.insert_row && (is_set tx.virtual_key_hash && runs.organization_row))
                (belongs org n) of_organization cost l.organizations
                (charge_organization F tx.virtual_key_hash cost l).organizations
                (charge_organization-organization_spend tx.virtual_key_hash n cost l),
      )

  -- The row of a key after a transaction.
  pub record_transaction-find_key :
      (c : Cluster) (runs : Runs) (now : ℕ) (tx : Transaction F) (l : Ledger F) (h : Bytes)
      → find? (λ k. k.key_hash =s h) (record_transaction F c runs now tx l).1.virtual_keys
        ≡ Option.map
            (λ k.
              if (runs.insert_row && (is_set tx.virtual_key_hash && runs.key_row))
                && (k.key_hash =s tx.virtual_key_hash)
              then record k { consumed_budget = F.add k.consumed_budget tx.estimated_cost_usd }
              else k)
            (find? (λ k. k.key_hash =s h) l.virtual_keys)
  unfolding after charge_key charge_key_row
  record_transaction-find_key c runs now tx l h =
      ap (find? (λ k. k.key_hash =s h)) (after-virtual_keys c runs now tx l)
      ∙ go (runs.insert_row && (is_set tx.virtual_key_hash && runs.key_row))
    where
      q : VirtualKeyRecord F → Bool
      q k = k.key_hash =s h

      p : VirtualKeyRecord F → Bool
      p k = k.key_hash =s tx.virtual_key_hash

      f : VirtualKeyRecord F → VirtualKeyRecord F
      f k = charge_key_row F tx.estimated_cost_usd k

      map_same :
          (o : Option (VirtualKeyRecord F))
          → o ≡ Option.map (λ k. if false && p k then f k else k) o
      map_same none = refl
      map_same (some k) = refl

      go :
          (b : Bool)
          → find? q (if b then update p f l.virtual_keys else l.virtual_keys)
            ≡ Option.map (λ k. if b && p k then f k else k) (find? q l.virtual_keys)
      go true = find?-update q p f (λ x. refl) l.virtual_keys
      go false = map_same (find? q l.virtual_keys)
