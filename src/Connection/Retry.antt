-- ===== src/Connection/Retry.antt =====
-- How often `execute_authenticate_with_retry` of crates/privchat-sdk/src/lib.rs connects and authenticates.
use mathlib.Core.List.{append_assoc}
use privchat_sdk.Base.{
  Bool-cases, Option-cases, ◌≡◌, refl, ◌∙◌, inl, inr, Bool, true, false, ◌&&◌, Option, none, some,
  List, [], ◌∷◌, ◌++◌, arith,
}
use privchat_sdk.Errors.{Error}
use privchat_sdk.Connection.{
  AuthenticateRetryOperation, reconnect_op, authenticate_op, is_unanswered, proceed,
  after_reconnect, after_authenticate, rounds, execute_authenticate_with_retry,
}

module _ {World : Type 0} (run : World → AuthenticateRetryOperation → World × Option Error) where
  -- The driver that also writes down what it is asked to do.
  pub logged :
      World × List AuthenticateRetryOperation
      → AuthenticateRetryOperation
      → (World × List AuthenticateRetryOperation) × Option Error
  logged (w, log) op = let (w', r) = run w op in ((w', log ++ (op ∷ [])), r)

  -- All that it may do.
  pub longest : Bool → List AuthenticateRetryOperation
  longest false = authenticate_op ∷ reconnect_op ∷ authenticate_op ∷ []
  longest true = reconnect_op ∷ authenticate_op ∷ reconnect_op ∷ authenticate_op ∷ []

  -- The result stands, for what was done; the end is an authentication where it is a success.
  abbrev pub Settles :
      List AuthenticateRetryOperation
      → Option ((World × List AuthenticateRetryOperation) × Option Error)
      → Type 0
  Settles all answer =
      (w : World) × (log rest : List AuthenticateRetryOperation) × (r : Option Error) × (answer
        ≡ some ((w, log), r))
      × (log ++ rest ≡ all)
      × (r ≡ none
          → (before : List AuthenticateRetryOperation) × (log ≡ before ++ (authenticate_op ∷ [])))

  stop :
      (all log rest : List AuthenticateRetryOperation) (op : AuthenticateRetryOperation) (w : World)
      (e : Error)
      → log ++ (op ∷ rest) ≡ all
      → Settles all (some ((w, log ++ (op ∷ [])), some e))
  stop all log rest op w e h =
      (w, log ++ (op ∷ []), rest, some e, refl, append_assoc log (op ∷ []) rest ∙ h, λ k. cc)

  reconnect-Settles :
      (all log rest : List AuthenticateRetryOperation) (w : World)
      (next : World × List AuthenticateRetryOperation
        → Option ((World × List AuthenticateRetryOperation) × Option Error))
      → log ++ (reconnect_op ∷ rest) ≡ all
      → ((w' : World) → Settles all (next (w', log ++ (reconnect_op ∷ []))))
      → Settles all (after_reconnect logged true (w, log) next)
  unfolding after_reconnect proceed logged
  reconnect-Settles all log rest w next h k = elim (Option-cases (run w reconnect_op).1) [
    | inl ok ↦ rw ok (k (run w reconnect_op).0)
    | inr (e, failed) ↦ rw failed (stop all log rest reconnect_op _ e h)
  ]

  authenticate-Settles :
      (first : Bool) (all log rest : List AuthenticateRetryOperation) (w : World)
      (retry : World × List AuthenticateRetryOperation
        → Option ((World × List AuthenticateRetryOperation) × Option Error))
      → log ++ (authenticate_op ∷ rest) ≡ all
      → (first ≡ true → (w' : World) → Settles all (retry (w', log ++ (authenticate_op ∷ []))))
      → Settles all (after_authenticate logged first (logged (w, log) authenticate_op) retry)
  unfolding after_authenticate logged
  authenticate-Settles first all log rest w retry h k =
      elim (Option-cases (run w authenticate_op).1) [
        | inl ok ↦ rw ok (
          (run w authenticate_op).0,
          log ++ (authenticate_op ∷ []),
          rest,
          none,
          refl,
          append_assoc log (authenticate_op ∷ []) rest ∙ h,
          λ good. (log, refl),
        )
        | inr (e, failed) ↦ elim (Bool-cases (is_unanswered e && first)) [
          | inl again ↦ rw (failed, again) (k (ground arith) (run w authenticate_op).0)
          | inr final ↦ rw (failed, final) (stop all log rest authenticate_op _ e h)
        ]
      ]

  -- Whatever the driver answers, the loop ends, never at its `unreachable!`. What it did is the
  -- start of this sequence: a reconnect if one was needed, an authentication, a reconnect, an
  -- authentication. It succeeds only with an authentication as its last operation.
  pub execute-Settles :
      (need_reconnect : Bool) (w : World)
      → Settles
          (longest need_reconnect)
          (execute_authenticate_with_retry logged need_reconnect (w, []))
  unfolding execute_authenticate_with_retry rounds after_reconnect longest
  execute-Settles false w =
      let all = longest false in
      authenticate-Settles true all [] _ w _ refl (λ first w1.
        reconnect-Settles all (authenticate_op ∷ []) _ w1 _ refl
          (λ w2. authenticate-Settles false all _ [] w2 _ refl (λ no. absurd (ground arith))))
  execute-Settles true w =
      let all = longest true in
      reconnect-Settles all [] _ w _ refl (λ w0.
        authenticate-Settles true all _ (reconnect_op ∷ authenticate_op ∷ []) w0 _ refl (λ first w1.
          reconnect-Settles all _ (authenticate_op ∷ []) w1 _ refl
            (λ w2. authenticate-Settles false all _ [] w2 _ refl (λ no. absurd (ground arith)))))
