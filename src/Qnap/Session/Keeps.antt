-- ===== src/Qnap/Session/Keeps.antt =====
-- Invariants of the controller's steps, one rule for each way to build a step.
use nomad_csi_driver.Base.{ℕ, ◌∷◌, Bool-cases, inl, inr}
pub use nomad_csi_driver.Driver.Keeps.{
  Keeps, Keeps-pure, Keeps-fail, Keeps-lift, Keeps-bind, keeps_rules,
}
use nomad_csi_driver.Driver.Errors.{Result, ok, err, Io}
use nomad_csi_driver.Qnap.Appliance.{Client, logged_in}
use nomad_csi_driver.Qnap.Session.{
  State, logged, get_session, with_session, retry, first_try, in_session, is_auth_error,
}

-- An invariant that a login and a new session do not disturb.
pub record IsSteady (P : State → Type 0) : Type 0 where
  pub login :
      (s : State) (r : Result ℕ) (n : ℕ)
      → P s
      → P (record s { history = logged_in r ∷ s.history; session = n })
  pub reset : (s : State) → P s → P (record s { session = 0 })

module _ (cl : Client) (P : State → Type 0) (steady : IsSteady P) where
  logged-keeps : (r : Result ℕ) (s : State) → P s → P (logged cl r s).1
  unfolding logged
  logged-keeps (ok n) s h = steady.login s (ok n) n h
  logged-keeps (err e) s h = steady.login s (err e) s.session h

  get_session-keeps : (s : State) → P s → P (get_session cl s).1
  unfolding get_session
  get_session-keeps s h = elim (Bool-cases (cl.valid s.session)) [
    | inl e ↦ rw e h
    | inr e ↦ rw e (logged-keeps (cl.login s.history) s h)
  ]

  module _ {A : Type 0} (fn : ℕ → Io State A) (keeps : (n : ℕ) → Keeps P (fn n)) where
    with_session-keeps : (r : Result ℕ × State) → P r.1 → P (with_session cl r fn).1
    unfolding with_session
    with_session-keeps (err e, s) h = h
    with_session-keeps (ok n, s) h = (keeps n).at s h

    retry-keeps : (r : Result A × State) → P r.1 → P (retry cl fn r).1
    unfolding retry
    retry-keeps (ok a, s) h = h
    retry-keeps (err e, s) h = elim (Bool-cases (is_auth_error e)) [
      | inl auth ↦ rw auth (
          with_session-keeps (get_session cl (record s { session = 0 }))
            (get_session-keeps _ (steady.reset s h)))
      | inr other ↦ rw other h
    ]

    first_try-keeps : (r : Result ℕ × State) → P r.1 → P (first_try cl fn r).1
    unfolding first_try
    first_try-keeps (err e, s) h = h
    first_try-keeps (ok n, s) h = retry-keeps (fn n s) ((keeps n).at s h)

    -- What holds of each attempt holds of `sessionManager.do`, with its retry.
    pub in_session-Keeps : Keeps P (in_session cl fn)
    unfolding in_session
    in_session-Keeps = record {
      at = λ s h. first_try-keeps (get_session cl s) (get_session-keeps s h);
    }
