-- ===== src/BandAdvisor/Service/Advice.antt =====
-- A plan that a query gives has candidates, and no more than four.
use airspyhf_wsprd.Common.{
  ◌≡◌, refl, sym, subst, inl, inr, Bool, true, false, Option, none, some, [], arith, Text,
  Bool-cases,
}
use airspyhf_wsprd.HopPlan.{HopPlan}
use airspyhf_wsprd.BandAdvisor.Rows.{wspr_advisor_parse_response, ft8_advisor_parse_response}
use airspyhf_wsprd.BandAdvisor.Rows.Advice.{IsAdvice}
use airspyhf_wsprd.BandAdvisor.Rows.Plan.{
  wspr_advisor_parse_response-IsRanked, wspr_advisor_parse_response-missing,
}
use airspyhf_wsprd.BandAdvisor.Rows.Dial.{ft8_advisor_parse_response-IsAdvice}
use airspyhf_wsprd.BandAdvisor.Monitor.{ft8_monitor_parse_response}
use airspyhf_wsprd.BandAdvisor.Monitor.Plan.{
  ft8_monitor_parse_response-IsMonitored, ft8_monitor_parse_response-missing, IsMonitored-IsAdvice,
}
use airspyhf_wsprd.BandAdvisor.Service.{
  Advisor, Numbers, Web, or_regional, query_band_advice, query_ft8_band_advice,
  query_ft8_monitor_advice, query,
}

-- Advice of one of the parsers, where it is given any.
abbrev pub Advises : HopPlan → Bool × HopPlan → Type 0
Advises candidates (true, plan) = IsAdvice candidates plan
Advises candidates (false, plan) = Unit

module _ (candidates : HopPlan) where
  from_equation :
      (given : Bool × HopPlan)
      → ((plan : HopPlan) → given ≡ (true, plan) → IsAdvice candidates plan)
      → Advises candidates given
  from_equation (true, plan) h = h plan refl
  from_equation (false, plan) h = tt

  or_regional-Advises :
      (monitor regional : Bool × HopPlan)
      → Advises candidates monitor
      → Advises candidates regional
      → Advises candidates (or_regional monitor regional)
  unfolding or_regional
  or_regional-Advises (true, plan) regional m r = m
  or_regional-Advises (false, plan) regional m r = r

module _ (numbers : Numbers) (candidates : HopPlan) where
  rows-Advises :
      (response : Option Text)
      → Advises candidates (wspr_advisor_parse_response numbers.scan (some candidates) response [])
  rows-Advises none =
      subst (Advises candidates)
        (sym (wspr_advisor_parse_response-missing numbers.scan candidates [])) tt
  rows-Advises (some response) = from_equation candidates _ (λ plan e.
      let (r, two, four) =
        wspr_advisor_parse_response-IsRanked numbers.scan candidates response [] e in
      record { one = omega (arith, two); four = four; known = r.known })

  dial-Advises :
      (response : Option Text)
      → Advises candidates
          (ft8_advisor_parse_response numbers.strtoul (some candidates) response [])
  dial-Advises response = from_equation candidates _ (λ plan e.
      ft8_advisor_parse_response-IsAdvice numbers.strtoul candidates response [] {plan = plan} e)

  monitors-Advises :
      (response : Option Text)
      → Advises candidates
          (ft8_monitor_parse_response numbers.strtoul (some candidates) response [])
  monitors-Advises none =
      subst (Advises candidates)
        (sym (ft8_monitor_parse_response-missing numbers.strtoul candidates [])) tt
  monitors-Advises (some response) = from_equation candidates _ (λ plan e.
      IsMonitored-IsAdvice numbers.strtoul candidates response plan (
        ft8_monitor_parse_response-IsMonitored numbers.strtoul candidates response [] {plan = plan}
          e))

pub query-Advises :
    (numbers : Numbers) (advisor : Advisor) (web : Web)
    → Advises advisor.candidates (query numbers advisor web)
unfolding query query_band_advice query_ft8_band_advice query_ft8_monitor_advice
query-Advises numbers advisor web = elim (Bool-cases advisor.use_psk_reporter) [
  | inl e ↦ rw e (
      or_regional-Advises advisor.candidates _ _
        (monitors-Advises numbers advisor.candidates web.monitors)
        (dial-Advises numbers advisor.candidates web.frequencies))
  | inr e ↦ rw e (rows-Advises numbers advisor.candidates web.rows)
]
