-- ===== src/PyTimer/Parse.antt =====
-- What the parsers of the parameters accept.
use puring.Base.{◌≡◌, ap, ◌∙◌, ℤ, IsInt, to_signed-to_unsigned, some}
use puring.Timer.{TimerParams, TimeoutParams}
use puring.Registry.{multishot}
use puring.PyTimer.{
  int, bool, dict, TimeoutDict, TimerDict, as_int, timeout_params, parse_timeout_params,
  timer_params, parse_timer_params,
}

-- The dicts that stand for parameters.
abbrev pub timeout_dict : TimeoutParams → TimeoutDict
timeout_dict p = record {
  sec = some (int p.sec);
  nsec = some (int p.nsec);
  is_required = some (bool p.is_required);
}

abbrev pub timer_dict : TimerParams → TimerDict
timer_dict p = record {
  sec = some (int p.sec);
  nsec = some (int p.nsec);
  count = some (int p.count);
  is_multishot = some (bool p.is_multishot);
}

fits : (x : ℤ) → IsInt x → as_int (some (int x)) ≡ some x
fits x h = ap some (to_signed-to_unsigned x h)

-- The parameters of a timeout, or of a timer on a multishot stream, that fit a C `int`, are read
-- back from the dict that stands for them.
pub parse-dict :
    (p : TimeoutParams) (q : TimerParams)
    → IsInt p.sec
    → IsInt p.nsec
    → IsInt q.sec
    → IsInt q.nsec
    → IsInt q.count
    → (parse_timeout_params (some (dict (timeout_dict p))) ≡ some p)
      × (parse_timer_params multishot (some (dict (timer_dict q))) ≡ some q)
unfolding parse_timeout_params parse_timer_params timeout_params timer_params
parse-dict p q hs hn ks kn kc = (
  ap (λ x. timeout_params x (as_int (some (int p.nsec))) (some p.is_required)) (fits p.sec hs)
      ∙ ap (λ x. timeout_params (some p.sec) x (some p.is_required)) (fits p.nsec hn),
  ap
        (λ x.
          timer_params multishot x (as_int (some (int q.nsec))) (as_int (some (int q.count)))
            (some q.is_multishot))
        (fits q.sec ks)
      ∙ ap
          (λ x.
            timer_params multishot (some q.sec) x (as_int (some (int q.count)))
              (some q.is_multishot))
          (fits q.nsec kn)
      ∙ ap (λ x. timer_params multishot (some q.sec) (some q.nsec) x (some q.is_multishot))
          (fits q.count kc),
)
