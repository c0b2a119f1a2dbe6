-- ===== src/Scenarios/Outboxes.antt =====
-- A table of the outbox with one message.
use reliable_agent_runtime.Prelude.{
  Bool, List, [], add_int, arith, eq_iff, false, get_elem?, inl, none, pos, refl, some, suc, sym,
  zero, ℕ, ◌++◌, ◌∙◌, ◌∷◌, ◌≡◌,
}
use reliable_agent_runtime.Outbox.{OutboxMessage}
use reliable_agent_runtime.Outbox.Guarantees.{apply_all_leased, apply_all_published}
use reliable_agent_runtime.Outbox.Ownership.{
  OutboxCall, apply, apply_all, leases_batch, marks_retry,
}
use reliable_agent_runtime.Outbox.Rows.{HasPrimaryKey}
use reliable_agent_runtime.Outbox.Table.{
  OutboxRow, due_rows, is_due, is_held, lease_batch, leased_row, mark_retry, to_message, update_one,
  update_where,
}
use reliable_agent_runtime.Outbox.Takeover.{Grants, IsOutdated, lease_batch-IsOutdated}

abbrev row : OutboxRow
row = record {
  id = pos 1;
  aggregate_type = "run";
  aggregate_id = "run_1";
  event_type = "RUN_CREATED";
  payload = "{}";
  attempts = pos 1;
  next_attempt_at = 5;
  published_at = none;
  created_at = 5;
  lease_owner = some "p1";
  lease_until = some 20;
  lease_token = 1;
  last_error = none;
}

abbrev published : OutboxRow
published = record row { published_at = some 9; lease_owner = none; lease_until = none }

abbrev unlocked : OutboxRow → Bool
unlocked r = false

-- Another publisher leases, too early, and then marks with its own name.
abbrev foreign_calls : List OutboxCall
foreign_calls =
    leases_batch none unlocked "p2" 10 (pos 30) (pos 10)
    ∷ marks_retry none (pos 1) "p2" 1 50 "late"
    ∷ []

-- The same after the lease has run out.
abbrev later_calls : List OutboxCall
later_calls = leases_batch none unlocked "p2" 30 (pos 30) (pos 10) ∷ []

abbrev again : OutboxRow
again = record row {
  attempts = pos 2;
  lease_owner = some "p2";
  lease_until = some 60;
  lease_token = 2;
}

-- The second lease is taken.
leased_again : apply_all (row ∷ []) later_calls ≡ again ∷ []
unfolding apply_all apply lease_batch due_rows is_due update_where leased_row to_message add_int
leased_again = refl

single-HasPrimaryKey : (r : OutboxRow) → HasPrimaryKey (r ∷ [])
single-HasPrimaryKey r j k s t at_j at_k same = only j s at_j ∙ sym (only k t at_k)
  where
    only : (k : ℕ) (s : OutboxRow) → get_elem? (r ∷ []) k ≡ some s → k ≡ 0
    only zero s h = refl
    only (suc k) s h = absurd (ground (arith, h))

apply_all_published_example :
    get_elem? (apply_all (published ∷ []) (foreign_calls ++ later_calls)) 0 ≡ some published
apply_all_published_example =
    apply_all_published (published ∷ []) (foreign_calls ++ later_calls) 0 published
      (single-HasPrimaryKey published) refl refl

apply_all_leased_example : get_elem? (apply_all (row ∷ []) foreign_calls) 0 ≡ some row
apply_all_leased_example =
    apply_all_leased (row ∷ []) foreign_calls 0 row "p1" 20 (single-HasPrimaryKey row) refl refl
      refl (omega arith, (inl (λ e. ground (arith, e, eq_iff "p2" "p1")), tt))

abbrev waiting : OutboxRow
waiting = record row { attempts = pos 0; lease_owner = none; lease_until = none; lease_token = 0 }

abbrev former : OutboxMessage
former = to_message "p1" 20 row

abbrev newer : OutboxMessage
newer = to_message "p2" 60 again

former_grant : Grants (waiting ∷ []) (row ∷ []) former
unfolding lease_batch due_rows is_due update_where leased_row to_message add_int
former_grant = record {
  locked = unlocked;
  publisher = "p1";
  now = 10;
  ttl = pos 10;
  limit = pos 10;
  batch = former ∷ [];
  answered = refl;
  place = 0;
  contained = refl;
}

newer_grant : Grants (apply_all (row ∷ []) foreign_calls) (again ∷ []) newer
unfolding apply_all apply lease_batch mark_retry update_one is_held due_rows is_due update_where
    leased_row to_message add_int
newer_grant = record {
  locked = unlocked;
  publisher = "p2";
  now = 30;
  ttl = pos 30;
  limit = pos 10;
  batch = newer ∷ [];
  answered = refl;
  place = 0;
  contained = refl;
}

lease_batch-IsOutdated_example :
    IsOutdated (apply_all (again ∷ []) later_calls) former.id "p1" former.lease_token
lease_batch-IsOutdated_example =
    lease_batch-IsOutdated (waiting ∷ []) (row ∷ []) (again ∷ []) foreign_calls later_calls former
      newer "p1" (single-HasPrimaryKey waiting) former_grant newer_grant (unfold to_message in refl)
