-- ===== src/Connection/Driver/Keeps.antt =====
-- What the retry loop of crates/privchat-sdk/src/lib.rs keeps.
use privchat_sdk.Base.{◌==◌, if_elim, ℕ, zero, suc, Bool, true, false, ◌&&◌, Option, none, some}
use privchat_sdk.Errors.{Error}
use privchat_sdk.Connection.{
  AuthenticateRetryOperation, reconnect_op, authenticate_op, is_unanswered, proceed,
  after_reconnect, after_authenticate, rounds, execute_authenticate_with_retry,
}

-- Whatever its driver's operations keep, the retry loop keeps.
module _ {World : Type 0} (run_one : World → AuthenticateRetryOperation → World × Option Error)
    (P : World → Type 0)
    (keeps : (w : World) (op : AuthenticateRetryOperation) → P w → P (run_one w op).0) where
  abbrev pub Holds : Option (World × Option Error) → Type 0
  Holds none = Unit
  Holds (some (w, r)) = P w

  proceed-Holds :
      (r : World × Option Error) (next : World → Option (World × Option Error))
      → P r.0
      → ((w : World) → P w → Holds (next w))
      → Holds (proceed run_one r next)
  unfolding proceed
  proceed-Holds (w, none) next p h = h w p
  proceed-Holds (w, some e) next p h = p

  reconnected-Holds :
      (need : Bool) (w : World) (next : World → Option (World × Option Error))
      → P w
      → ((w' : World) → P w' → Holds (next w'))
      → Holds (after_reconnect run_one need w next)
  unfolding after_reconnect
  reconnected-Holds false w next p h = h w p
  reconnected-Holds true w next p h =
      proceed-Holds (run_one w reconnect_op) next (keeps w reconnect_op p) h

  authenticated-Holds :
      (first : Bool) (r : World × Option Error) (retry : World → Option (World × Option Error))
      → P r.0
      → ((w : World) → P w → Holds (retry w))
      → Holds (after_authenticate run_one first r retry)
  unfolding after_authenticate
  authenticated-Holds first (w, none) retry p h = p
  authenticated-Holds first (w, some e) retry p h =
      if_elim Holds (is_unanswered e && first) (λ again. h w p) (λ over. p)

  rounds-Holds : (left : ℕ) (need : Bool) (w : World) → P w → Holds (rounds run_one left need w)
  unfolding rounds
  rounds-Holds zero need w p = tt
  rounds-Holds (suc left) need w p = reconnected-Holds need w _ p (λ w' p'.
      authenticated-Holds (left == 1) (run_one w' authenticate_op) _ (keeps w' authenticate_op p')
        (λ w'' p''. rounds-Holds left true w'' p''))

  pub execute-Holds :
      (need : Bool) (w : World) → P w → Holds (execute_authenticate_with_retry run_one need w)
  unfolding execute_authenticate_with_retry
  execute-Holds need w p = rounds-Holds 2 need w p
