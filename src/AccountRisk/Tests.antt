-- ===== src/AccountRisk/Tests.antt =====
-- Three breaches of one account, and the theorem at them.
use tca.Base.{◌≡◌, refl, true, false, none, [], ◌∷◌, arith}
use tca.AccountRisk.{Risk, get_pause_state, record_account_risk_breach}
use tca.AccountRisk.Pauses.{is_account_paused, three_breaches-pause}

abbrev calm : Risk
calm = record {
  accounts =
      record { id = 2; paused_at = none; pause_reason = none }
      ∷ record { id = 5; paused_at = none; pause_reason = none }
      ∷ [];
  breaches = λ i. [];
  notifications = [];
}

abbrev once : Risk
once = (record_account_risk_breach 5 "flood-wait" 100 calm).1

abbrev twice : Risk
twice = (record_account_risk_breach 5 "flood-wait" 200 once).1

three_breaches-pause_example :
    is_account_paused 5 (record_account_risk_breach 5 "flood-wait" 300 twice).1 ≡ true
unfolding get_pause_state
three_breaches-pause_example =
    three_breaches-pause 5 "flood-wait" "flood-wait" "flood-wait" 100 200 300 calm refl
      (omega arith) (omega arith) (omega arith)

two_breaches : is_account_paused 5 twice ≡ false
unfolding record_account_risk_breach
two_breaches = refl
