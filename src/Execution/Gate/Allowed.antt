-- ===== src/Execution/Gate/Allowed.antt =====
-- Which settings allow trading.
use japan_agent.Base.{
  ◌+◌, ◌-◌, ◌/◌, ◌≤◌, ◌≡◌, ◌≢◌, ◌↔◌, ◌⊎◌, inl, inr, refl, true, false, not, get_or, String, str_eq,
  str_eq_iff, ok, raise_if, raise_if-eq-ok, >>=-eq-ok, not-true, ◌>>=◌, arith,
}
use japan_agent.Base.Int.{pos, ◌≤ℤ◌}
use japan_agent.Base.Text.{is_blank}
use japan_agent.Time.{Instant, days}
use japan_agent.Execution.Errors.{no_acknowledgement, no_consent}
use japan_agent.Execution.Gate.{
  LiveGate, GateFile, gate_file, gate_from_file, Settings, dates_fall_short, check_gate, check_live,
  assert_environment_allowed,
}

-- A gate that a human has signed, for this consent, on a paper record of at least 14 days.
pub record IsSigned (consent : String) (now : Instant) (g : LiveGate) : Type 0 where
  pub named : is_blank g.approved_by ≡ false
  pub same_consent : g.compliance_confirmation_reference ≡ consent
  pub long : pos 14 ≤ℤ g.manual_fix_free_days
  pub tracked : g.paper_tracking_started_at + days 14 ≤ g.reviewed_at
  pub covered :
      g.manual_fix_free_days ≤ℤ pos ((g.reviewed_at - g.paper_tracking_started_at) / days 1)
  pub no_breach : g.no_risk_breaches ≡ true
  pub verified : g.journal_verified ≡ true
  pub reviewed : g.reviewed_at ≤ now

check_gate_iff :
    (consent : String) (now : Instant) (g : LiveGate)
    → (check_gate consent now g ≡ ok tt) ↔ IsSigned consent now g
unfolding check_gate dates_fall_short
check_gate_iff consent now g = (
  λ h. ground (arith, str_eq_iff g.compliance_confirmation_reference consent),
  λ h. ground (arith, str_eq_iff g.compliance_confirmation_reference consent),
)

-- Live trading takes an acknowledgement, a consent and a signed gate.
pub record MayTradeLive (s : Settings) (now : Instant) : Type 0 where
  pub acknowledged : get_or s.allow_live_trading "" ≡ "I_ACKNOWLEDGE_REAL_MONEY"
  pub consented : get_or s.written_consent_reference "" ≢ ""
  pub gate : LiveGate
  pub found : s.live_gate_file ≡ gate_file gate
  pub signed : IsSigned (get_or s.written_consent_reference "") now gate

found_gate : (f : GateFile) (g : LiveGate) → gate_from_file f ≡ ok g → f ≡ gate_file g
unfolding gate_from_file
found_gate f g h = ground arith

str_eq-differs : {a b : String} → a ≡ b → str_eq a b ≢ false
str_eq-differs {a} {b} e h = ground (arith, str_eq_iff a b, h)

check_live_iff : (s : Settings) (now : Instant) → (check_live s now ≡ ok tt) ↔ MayTradeLive s now
unfolding check_live gate_from_file
check_live_iff s now = (
  (λ h.
      let (_, acknowledged, h1) =
        >>=-eq-ok
          (raise_if (not (str_eq (get_or s.allow_live_trading "") "I_ACKNOWLEDGE_REAL_MONEY"))
            no_acknowledgement)
          _ h in
      let (_, consented, h2) =
        >>=-eq-ok (raise_if (str_eq (get_or s.written_consent_reference "") "") no_consent)
          (λ _. gate_from_file s.live_gate_file >>= λ g.
            check_gate (get_or s.written_consent_reference "") now g)
          h1 in
      let (g, found, signed) =
        >>=-eq-ok (gate_from_file s.live_gate_file)
          (λ g. check_gate (get_or s.written_consent_reference "") now g) h2 in
      record {
        acknowledged = (str_eq_iff _ _).0 (not-true _ (raise_if-eq-ok _ _ acknowledged));
        consented = λ e. str_eq-differs e (raise_if-eq-ok _ no_consent consented);
        gate = g;
        found = found_gate s.live_gate_file g found;
        signed = (check_gate_iff _ now g).0 signed;
      }),
  (λ h.
      rw (h.found, h.acknowledged)
        (ground (
          arith,
          str_eq_iff (get_or s.written_consent_reference "") "",
          h.consented,
          (check_gate_iff (get_or s.written_consent_reference "") now h.gate).1 h.signed,
        ))),
)

-- Trading is allowed exactly if the kill switch is off, and the environment is demo or the
-- settings permit live trading: the acknowledgement, a consent, and a gate file that a named human
-- has signed for that consent, on at least 14 days without manual fixes that its dates cover, with
-- no breach, a verified journal, and a review that is not of the future.
pub assert_environment_allowed_iff :
    (s : Settings) (now : Instant)
    → (assert_environment_allowed s now ≡ ok tt)
      ↔ ((s.killswitch_engaged ≡ false) × ((s.t212_environment ≡ "demo") ⊎ MayTradeLive s now))
unfolding assert_environment_allowed
assert_environment_allowed_iff s now = (
  (λ h. ground (arith, str_eq_iff s.t212_environment "demo", (check_live_iff s now).0)),
  (λ (off, h). elim h [
    | inl demo ↦ rw (off, demo) refl
    | inr live ↦ rw off (ground (arith, (check_live_iff s now).1 live))
  ]),
)
