-- ===== src/Reserve/Completion/Frame.antt =====
-- The completion of a group's reserves changes reserves and balances only.
use myturn_webportal.Prelude.{
  ℕ, Bool, true, false, Option, none, some, List, [], ◌∷◌, arith, leb, not, ◌||◌, Bool-cases, inl,
  inr,
}
use myturn_webportal.Prelude.Int.{ℤ, pos, leb_ℤ}
use myturn_webportal.Txn.{return, ◌>>=◌, ◌>>◌}
use myturn_webportal.Ledger.Account.{member_wallet_reserved, member_wallet_available}
use myturn_webportal.Ledger.Accounts.{get_balance, get_or_create}
use myturn_webportal.Ledger.Moves.{move_between}
use myturn_webportal.Ledger.Posting.Journal.{orphan_sweep}
use myturn_webportal.Store.Rows.{Reserve, Group}
use myturn_webportal.Store.Frames.{
  IsFramed, >>=-IsFramed, in_ledger-IsFramed, return-IsFramed, Keeps-rows, Keeps-opened,
  if-IsFramed,
}
use myturn_webportal.Ledger.Conserved.{get_or_create-Conserves, move_between-IsConserving}
use myturn_webportal.Store.{in_ledger}
use myturn_webportal.Reserve.Release.{is_active_reserve}
use myturn_webportal.Reserve.Completion.{
  FinalRelease, nothing_released, final_released, mark_reserve_fully_released_in_tx,
  finish_duplicate, finish_final, final_transfer, find_reserve,
  release_final_reserve_on_group_completed_in_tx, sweep_balance, with_reserved, has_active_reserve,
  sweep_orphaned_reserved_balance_in_tx, release_each, sweep_each, release_all, release_in_group,
  is_completed, active_reserves, find_group, release_all_active_reserves_on_group_completed_in_tx,
}

mark-IsFramed : (r : Reserve) (n : ℕ) → IsFramed (mark_reserve_fully_released_in_tx r n)
unfolding mark_reserve_fully_released_in_tx
mark-IsFramed r n db a db' h =
    Keeps-rows db db' (ground arith) (ground arith) (ground arith) (ground arith)

marked-IsFramed :
    (r : Reserve) (n : ℕ) (res : FinalRelease)
    → IsFramed (mark_reserve_fully_released_in_tx r n >> return res)
marked-IsFramed r n res =
    >>=-IsFramed (mark_reserve_fully_released_in_tx r n) (λ _. return res) (mark-IsFramed r n)
      (λ _. return-IsFramed res)

finish_duplicate-IsFramed : (r : Reserve) (o : Option Reserve) → IsFramed (finish_duplicate r o)
unfolding finish_duplicate
finish_duplicate-IsFramed r none db a db' h = return-IsFramed nothing_released db a db' h
finish_duplicate-IsFramed r (some fresh) db a db' h =
    if-IsFramed (not (is_active_reserve fresh.status) || leb fresh.remaining_reserve_amount 0)
      (return nothing_released)
      (mark_reserve_fully_released_in_tx fresh r.remaining_reserve_amount
        >> return (final_released r.id r.remaining_reserve_amount))
      (return-IsFramed nothing_released) (marked-IsFramed fresh r.remaining_reserve_amount _) db a
      db' h

finish_final-IsFramed : (r : Reserve) (duplicate : Bool) → IsFramed (finish_final r duplicate)
unfolding finish_final
finish_final-IsFramed r true db a db' h =
    finish_duplicate-IsFramed r (find_reserve r.id db.reserves) db a db' h
finish_final-IsFramed r false db a db' h =
    marked-IsFramed r r.remaining_reserve_amount (final_released r.id r.remaining_reserve_amount) db
      a db' h

release_final-IsFramed : (r : Reserve) → IsFramed (release_final_reserve_on_group_completed_in_tx r)
unfolding release_final_reserve_on_group_completed_in_tx
release_final-IsFramed r db a db' h =
    if-IsFramed (leb r.remaining_reserve_amount 0)
      (mark_reserve_fully_released_in_tx r 0 >> return nothing_released)
      (in_ledger (final_transfer r) >>= λ transfer. finish_final r transfer.duplicate)
      (marked-IsFramed r 0 nothing_released)
      (>>=-IsFramed (in_ledger (final_transfer r)) (λ t. finish_final r t.duplicate)
        (in_ledger-IsFramed (final_transfer r) (move_between-IsConserving _ _ _ _))
        (λ t. finish_final-IsFramed r t.duplicate))
      db a db' h

sweep_balance-IsFramed : (user : ℕ) (b : ℤ) → IsFramed (sweep_balance user b)
unfolding sweep_balance
sweep_balance-IsFramed user b db a db' h =
    if-IsFramed (leb_ℤ b (pos 0)) (return tt)
      (in_ledger (
          move_between (orphan_sweep user) (member_wallet_reserved user)
            (member_wallet_available user) b)
        >>= λ _. return tt)
      (return-IsFramed tt)
      (>>=-IsFramed _ (λ _. return tt) (in_ledger-IsFramed _ (move_between-IsConserving _ _ _ _))
        (λ _. return-IsFramed tt))
      db a db' h

sweep-IsFramed : (user : ℕ) → IsFramed (sweep_orphaned_reserved_balance_in_tx user)
unfolding sweep_orphaned_reserved_balance_in_tx
sweep-IsFramed user db a db' h = elim (Bool-cases (has_active_reserve user db.reserves)) [
  | inl backed ↦ return-IsFramed tt db a db' (rw backed at h)
  | inr free ↦
      Keeps-opened (get_or_create (member_wallet_reserved user)) db db'
        (get_or_create-Conserves (member_wallet_reserved user) db.ledger)
        (sweep_balance-IsFramed user
          (get_balance (member_wallet_reserved user) (with_reserved user db).ledger)
          (with_reserved user db) a db' (rw free at h))
]

release_each-IsFramed :
    (rs : List Reserve) (results : List FinalRelease) (users : List ℕ)
    → IsFramed (release_each rs results users)
unfolding release_each
release_each-IsFramed [] results users = return-IsFramed (results, users)
release_each-IsFramed (r ∷ rs) results users =
    >>=-IsFramed (release_final_reserve_on_group_completed_in_tx r) _ (release_final-IsFramed r)
      (λ res. release_each-IsFramed rs _ _)

sweep_each-IsFramed : (users : List ℕ) → IsFramed (sweep_each users)
unfolding sweep_each
sweep_each-IsFramed [] = return-IsFramed tt
sweep_each-IsFramed (u ∷ us) =
    >>=-IsFramed (sweep_orphaned_reserved_balance_in_tx u) (λ _. sweep_each us) (sweep-IsFramed u)
      (λ _. sweep_each-IsFramed us)

release_all-IsFramed : (rs : List Reserve) → IsFramed (release_all rs)
unfolding release_all
release_all-IsFramed rs =
    >>=-IsFramed (release_each rs [] []) _ (release_each-IsFramed rs [] []) (λ (results, users).
      >>=-IsFramed (sweep_each users) (λ _. return results) (sweep_each-IsFramed users)
        (λ _. return-IsFramed results))

release_in_group-IsFramed : (group : ℕ) (o : Option Group) → IsFramed (release_in_group group o)
unfolding release_in_group
release_in_group-IsFramed group none db a db' h = return-IsFramed [] db a db' h
release_in_group-IsFramed group (some g) db a db' h = elim (Bool-cases (is_completed g.status)) [
  | inl done ↦ release_all-IsFramed (active_reserves group db.reserves) db a db' (rw done at h)
  | inr going ↦ return-IsFramed [] db a db' (rw going at h)
]

pub release_reserves-IsFramed :
    (group : ℕ) → IsFramed (release_all_active_reserves_on_group_completed_in_tx group)
unfolding release_all_active_reserves_on_group_completed_in_tx
release_reserves-IsFramed group db a db' h =
    release_in_group-IsFramed group (find_group group db.groups) db a db' h
