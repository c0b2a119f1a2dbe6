-- ===== src/Outbox/Takeover.antt =====
-- internal/outbox/postgres/repository.go: a lease that another one has taken over.
use reliable_agent_runtime.Prelude.{
  All, All-at, All-select, Bool, Bool-cases, List, String, [], ap, arith, eqb, eqb_ℤ, eqb_ℤ-eq, err,
  false, get_elem?, if◌then◌else◌, inl, inr, leb_ℤ, map, none, ok, pos, refl, select, some, subst,
  suc, sym, true, zero, ℕ, ℤ, ◌&&◌, ◌<◌, ◌==◌, ◌||◌, ◌∙◌, ◌∷◌, ◌≡◌,
}
use reliable_agent_runtime.Domain.{Duration, Time, add_time}
use reliable_agent_runtime.Outbox.{OutboxMessage, no_messages, outbox_lease_lost}
use reliable_agent_runtime.Outbox.Guarantees.{apply-HasPrimaryKey, apply_all_token}
use reliable_agent_runtime.Outbox.Ownership.{OutboxCall, apply, apply_all, leases_batch}
use reliable_agent_runtime.Outbox.Rows.{HasPrimaryKey, update_where-at, update_where-none}
use reliable_agent_runtime.Outbox.Table.{
  OutboxRow, Table, due_rows, is_chosen, is_held, lease_batch, leased_row, limit_of, mark_published,
  mark_retry, published_row, retried_row, to_message, unexpired, update_one, update_where,
}

stale_row :
    (r s : OutboxRow) (id : ℤ) (publisher : String) (token : ℕ)
    → (s.id ≡ id → s ≡ r)
    → token < r.lease_token
    → is_held id publisher token s ≡ false
unfolding is_held
stale_row r s id publisher token only old = elim (Bool-cases (eqb_ℤ s.id id)) [
  | inr apart ↦ ground (arith, apart)
  | inl same ↦
      let token' : s.lease_token ≡ r.lease_token =
        ap (λ x. x.lease_token) (only (eqb_ℤ-eq s.id id same)) in
      ground (arith, token', old)
]

-- What a publisher with a token gets from the two marks.
pub record IsOutdated (table : Table) (id : ℤ) (publisher : String) (token : ℕ) : Type 0 where
  pub publishes_nothing :
      (now : Time)
      → mark_published none table id publisher token now ≡ (table, some outbox_lease_lost)
  pub reschedules_nothing :
      (next_attempt : Time) (reason : String)
      → mark_retry none table id publisher token next_attempt reason
        ≡ (table, some outbox_lease_lost)

old_token-IsOutdated :
    (table : Table) (k : ℕ) (r : OutboxRow) (publisher : String) (token : ℕ)
    → HasPrimaryKey table
    → get_elem? table k ≡ some r
    → token < r.lease_token
    → IsOutdated table r.id publisher token
unfolding mark_published mark_retry update_one
old_token-IsOutdated table k r publisher token keyed found old = record {
  publishes_nothing = λ now.
      nothing_held (λ s. is_held r.id publisher token s && unexpired now s.lease_until)
        (published_row now) (λ j s at_j. ground (arith, held_by_none j s at_j));
  reschedules_nothing = λ next_attempt reason.
      nothing_held (is_held r.id publisher token) (retried_row next_attempt reason) held_by_none;
}
  where
    held_by_none :
        (j : ℕ) (s : OutboxRow)
        → get_elem? table j ≡ some s
        → is_held r.id publisher token s ≡ false
    held_by_none j s at_j =
        stale_row r s r.id publisher token
          (λ same_id. cc (keyed j k s r at_j found same_id, at_j, found)) old

    nothing_held :
        (p : OutboxRow → Bool) (f : OutboxRow → OutboxRow)
        → ((j : ℕ) (s : OutboxRow) → get_elem? table j ≡ some s → p s ≡ false)
        → update_one none p f table ≡ (table, some outbox_lease_lost)
    nothing_held p f never =
        let (kept, affected) = update_where-none p f table never in
        λ i. (kept i, if eqb (affected i) 1 then none else some outbox_lease_lost)

-- A call of LeaseBatch that answers with a batch, and the message at a place of the batch.
pub record Grants (table table' : Table) (m : OutboxMessage) : Type 0 where
  pub locked : OutboxRow → Bool
  pub publisher : String
  pub now : Time
  pub ttl : Duration
  pub limit : ℤ
  pub batch : List OutboxMessage
  pub answered : lease_batch none locked table publisher now ttl limit ≡ (table', ok batch)
  pub place : ℕ
  pub contained : get_elem? batch place ≡ some m

-- The row behind a message of a batch has the identifier and the token of the message.
pub record Backs (before table' : Table) (m : OutboxMessage) : Type 0 where
  pub place : ℕ
  pub row : OutboxRow
  pub was : get_elem? before place ≡ some row
  pub leased : OutboxRow
  pub is_now : get_elem? table' place ≡ some leased
  pub same_id : m.id ≡ row.id
  pub leased_id : m.id ≡ leased.id
  pub token : m.lease_token ≡ leased.lease_token
  pub raised : row.lease_token < m.lease_token

All-map :
    {A B : Type 0}
    → (Q : B → Type 0) (f : A → B) (xs : List A) → All (λ x. Q (f x)) xs
    → All Q (map f xs)
All-map Q f [] h = tt
All-map Q f (x ∷ xs) h = (h.0, All-map Q f xs h.1)

some_inj : {A : Type 0} → (x y : A) → some x ≡ some y → x ≡ y
some_inj x y e = cc e

All-get :
    {A : Type 0}
    → (Q : A → Type 0) (xs : List A) (k : ℕ) (x : A) → All Q xs
    → get_elem? xs k ≡ some x
    → Q x
All-get Q [] k x h e = absurd (ground (arith, e))
All-get Q (y ∷ xs) zero x h e = subst Q (some_inj y x e) h.0
All-get Q (y ∷ xs) (suc k) x h e = All-get Q xs k x h.1 e

batch-Backs :
    (table : Table) (chosen : OutboxRow → Bool) (publisher : String) (until : Time)
    → All
        (Backs table (update_where chosen (leased_row publisher until) table))
        (map (to_message publisher until) (map (leased_row publisher until) (select chosen table)))
unfolding leased_row to_message
batch-Backs table chosen publisher until =
    let At = λ (r : OutboxRow). (k : ℕ) × (get_elem? table k ≡ some r) in
    let lease_it = leased_row publisher until in
    let Backed = Backs table (update_where chosen lease_it table) in
    All-map Backed (to_message publisher until) _ (
      All-map (λ r. Backed (to_message publisher until r)) lease_it _
        (backed (select chosen table)
          (All-select At chosen table (All-at At table (λ k r e. (k, e))))))
  where
    backed :
        (rows : Table)
        → All (λ r. ((k : ℕ) × (get_elem? table k ≡ some r)) × (chosen r ≡ true)) rows
        → All
            (λ r.
              Backs table
                (update_where chosen (leased_row publisher until) table)
                (to_message publisher until (leased_row publisher until r)))
            rows
    backed [] h = tt
    backed (r ∷ rows) (((k, there), among), rest) = (
      record {
        place = k;
        row = r;
        was = there;
        leased = leased_row publisher until r;
        is_now =
            subst
              (λ b.
                get_elem? (update_where chosen (leased_row publisher until) table) k
                ≡ some (if b then leased_row publisher until r else r))
              among (update_where-at chosen (leased_row publisher until) table k r there);
        same_id = refl;
        leased_id = refl;
        token = refl;
        raised = omega arith;
      },
      backed rows rest,
    )

module _ (table table' : Table) (m : OutboxMessage) (g : Grants table table' m) where
  answer-batch :
      (messages : List OutboxMessage)
      → (elim messages [ [] ↦ err no_messages | x ∷ xs ↦ ok (x ∷ xs) ]) ≡ ok g.batch
      → messages ≡ g.batch
  answer-batch [] e = absurd (ground (arith, e))
  answer-batch (x ∷ xs) e = cc e

  Grants-Backs : Backs table table' m
  unfolding lease_batch
  Grants-Backs =
      elim (Bool-cases (g.publisher == "" || leb_ℤ g.ttl (pos 0) || leb_ℤ g.limit (pos 0))) [
        | inl invalid ↦ absurd (ground (arith, rw (invalid, lease_batch) at g.answered))
        | inr valid ↦
            let until = add_time g.now g.ttl in
            let chosen = is_chosen (due_rows g.locked g.now (limit_of g.limit) table) in
            let answered = rw (valid, lease_batch) at g.answered in
            All-get (Backs table table') g.batch g.place m
              (subst (λ t. All (Backs table t) g.batch) (ap (λ a. a.0) answered)
                (subst
                  (All (Backs table (update_where chosen (leased_row g.publisher until) table)))
                  (answer-batch _ (ap (λ a. a.1) answered))
                  (batch-Backs table chosen g.publisher until)))
              g.contained
      ]

  Grants-HasPrimaryKey : HasPrimaryKey table → HasPrimaryKey table'
  Grants-HasPrimaryKey keyed = subst HasPrimaryKey (ap (λ a. a.0) g.answered) (
      unfold apply in
      apply-HasPrimaryKey table (leases_batch none g.locked g.publisher g.now g.ttl g.limit) keyed)

-- Once LeaseBatch has granted a message again, the token of its former grant is worth nothing:
-- whatever calls came between the two grants and after the second, marking the message as published
-- or for a retry with that token fails, for every publisher, and changes nothing. The identifiers of
-- the table are distinct.
pub lease_batch-IsOutdated :
    (table granted granted' : Table) (between later : List OutboxCall)
    (former newer : OutboxMessage) (publisher : String)
    → HasPrimaryKey table
    → Grants table granted former
    → Grants (apply_all granted between) granted' newer
    → newer.id ≡ former.id
    → IsOutdated (apply_all granted' later) former.id publisher former.lease_token
lease_batch-IsOutdated table granted granted' between later former newer publisher keyed g g' same =
    let b = Grants-Backs table granted former g in
    let b' = Grants-Backs (apply_all granted between) granted' newer g' in
    let (r, found, id, grown, keyed_between) =
      apply_all_token granted between b.place b.leased
        (Grants-HasPrimaryKey table granted former g keyed) b.is_now in
    let here : b.place ≡ b'.place =
      keyed_between b.place b'.place r b'.row found b'.was
        (id ∙ sym b.leased_id ∙ sym same ∙ b'.same_id) in
    let same_row : r ≡ b'.row = cc (here, found, b'.was) in
    let (r', found', id', grown', keyed_later) =
      apply_all_token granted' later b'.place b'.leased
        (Grants-HasPrimaryKey (apply_all granted between) granted' newer g' keyed_between)
        b'.is_now in
    subst (λ i. IsOutdated (apply_all granted' later) i publisher former.lease_token)
      (id' ∙ sym b'.leased_id ∙ same)
      (old_token-IsOutdated (apply_all granted' later) b'.place r' publisher former.lease_token
        keyed_later found'
        (omega
          (arith, b.token, grown, ap (λ x. x.lease_token) same_row, b'.raised, b'.token, grown')))
