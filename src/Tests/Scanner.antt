-- ===== src/Tests/Scanner.antt =====
-- The theorems on the port scanner and the daily window at concrete inputs.
use surfbot_agent.Base.{
  ℕ, ◌+◌, ◌*◌, ◌-◌, ◌/◌, ◌%◌, ◌≤◌, ◌<◌, ◌≡◌, refl, Bool, true, false, not, ◌&&◌, Option, none, some,
  List, [], ◌∷◌, String, arith, All, count_if, length, ltb, ◌⊎◌, inl, inr, if◌then◌else◌,
  Bool-cases, ltb→lt,
}
use surfbot_agent.Base.Int.{pos}
use surfbot_agent.Base.Text.{Bytes, codes}
use surfbot_agent.Model.{Time}
use surfbot_agent.Detection.Naabu.{parse_ports}
use surfbot_agent.Detection.Naabu.Ports.{single, range, print_all, ports_of_all, parse_ports-print}
use surfbot_agent.Detection.Naabu.Banner.{Conn}
use surfbot_agent.Detection.Naabu.Probe.{
  DialError, ErrorClass, PortProbeResult, Probed, Attempts, dial_failed, connected, probe_twice,
  collect_all, nothing,
}
use surfbot_agent.Detection.Naabu.Probe.Collected.{
  Probe, results_of, timed_out_probe, reported_in, line_for, one_if, collect_all_lem,
}
use surfbot_agent.Detection.Breaker.{Entry, inflight_cap, after}
use surfbot_agent.Detection.Naabu.Admission.{
  Admission, idle, try_admit, Reached, limit, Reached-bounded,
}
use surfbot_agent.Sched.Window.{
  TimeOfDay, Zone, Window, minutes, contains, next_open, parse_time_of_day, to_string,
}
use surfbot_agent.Sched.Window.Clock.{parse_time_of_day-to_string}
use surfbot_agent.Sched.Window.Contains.{minutes_from, contains_lem}
use surfbot_agent.Sched.Window.Opening.{IsRegular, next_open_lem}

parse_ports-print_example :
    parse_ports (print_all (single 22 ∷ range 80 82 ∷ []))
    ≡ some (ports_of_all (single 22 ∷ range 80 82 ∷ []))
parse_ports-print_example = parse_ports-print (single 22) (range 80 82 ∷ []) (omega arith)

-- Spaces are trimmed, and a range upside down is refused.
ports_run :
    (parse_ports (codes " 22, 80-82") ≡ some (22 ∷ 80 ∷ 81 ∷ 82 ∷ []))
    × (parse_ports (codes "82-80") ≡ none)
unfolding parse_ports surfbot_agent.Base.Text.trim_space surfbot_agent.Base.Text.bytes_eq
    surfbot_agent.Detection.Naabu.parse_parts surfbot_agent.Base.Text.split_on
    surfbot_agent.Detection.Naabu.parse_part surfbot_agent.Base.Text.has_byte
    surfbot_agent.Base.Text.atoi surfbot_agent.Base.Text.cut_at
    surfbot_agent.Detection.Naabu.ports_from
ports_run = (refl, refl)

abbrev lost : DialError
lost = record { text = codes "i/o timeout"; deadline_exceeded = true; timeout = some true }

abbrev unknown : DialError
unknown = record { text = codes "no such host"; deadline_exceeded = false; timeout = none }

abbrev web : Conn
web = record { passive = codes "hi"; write_ok = true; active = [] }

-- A port that answers, one that times out twice, and two of a host that has no address.
abbrev probes : List Probe
probes =
    (
      "h",
      80,
      probe_twice "h" 80 false (record {
        first_ctx = none;
        first = dial_failed lost;
        wait_ctx = none;
        second_ctx = none;
        second = connected web;
      }),
    )
    ∷ (
      "h",
      81,
      probe_twice "h" 81 false (record {
        first_ctx = none;
        first = dial_failed lost;
        wait_ctx = none;
        second_ctx = none;
        second = dial_failed lost;
      }),
    )
    ∷ (
      "k",
      80,
      probe_twice "k" 80 false (record {
        first_ctx = none;
        first = dial_failed unknown;
        wait_ctx = none;
        second_ctx = none;
        second = connected web;
      }),
    )
    ∷ (
      "k",
      81,
      probe_twice "k" 81 false (record {
        first_ctx = none;
        first = dial_failed unknown;
        wait_ctx = none;
        second_ctx = none;
        second = connected web;
      }),
    )
    ∷ []

collect_all_lem_example :
    ((collect_all probes nothing).results ≡ results_of probes)
    × ((collect_all probes nothing).failures ≡ count_if timed_out_probe probes)
    × ((ip : String) (c : ErrorClass)
        → count_if (line_for ip c) (collect_all probes nothing).dial_errs
          ≡ one_if (reported_in probes ip c))
collect_all_lem_example = collect_all_lem probes

probes_run :
    (length (collect_all probes nothing).results ≡ 1)
    × ((collect_all probes nothing).failures ≡ 1)
    × (length (collect_all probes nothing).dial_errs ≡ 1)
unfolding collect_all surfbot_agent.Detection.Naabu.Probe.collect probe_twice
    surfbot_agent.Detection.Naabu.Probe.probe_port surfbot_agent.Detection.Naabu.Probe.is_timeout
    surfbot_agent.Detection.Naabu.Probe.is_refused surfbot_agent.Base.Text.contains
    surfbot_agent.Detection.Naabu.Probe.record_dial_err surfbot_agent.Detection.Naabu.Probe.seen
    surfbot_agent.Detection.Naabu.Probe.retry_probe surfbot_agent.Detection.Naabu.Probe.classify_err
probes_run = (refl, refl, refl)

-- Two goroutines try.
abbrev two_in : Admission
two_in =
    (try_admit (inflight_cap (after (pos 4) []))
      (try_admit (inflight_cap (after (pos 4) [])) idle).0).0

two_reached : Reached (pos 4) two_in
two_reached = Reached.tries [] (Reached.tries [] Reached.starts)

Reached-bounded_example :
    (two_in.admitted ≤ limit (pos 4))
    × ((h : List Entry)
        → two_in.admitted ≡ 0
        → two_in.backing_out ≡ 0
        → (try_admit (inflight_cap (after (pos 4) h)) two_in).1 ≡ true)
Reached-bounded_example = Reached-bounded (pos 4) two_in two_reached

abbrev half_past_nine : TimeOfDay
half_past_nine = record { hour = 9; minute = 30 }

parse_time_of_day-to_string_example :
    parse_time_of_day (to_string half_past_nine) ≡ some half_past_nine
parse_time_of_day-to_string_example = parse_time_of_day-to_string half_past_nine (omega arith)

-- UTC: days of 1440 minutes.
abbrev minute : ℕ
minute = 60_000_000_000

abbrev utc : Zone
utc = record {
  minute_of_day = λ t. t / minute % 1440;
  date = λ t d c. (t / (1440 * minute) + d) * (1440 * minute) + minutes c * minute;
}

utc-IsRegular : IsRegular utc
utc-IsRegular = record {
  in_day = λ t. omega arith;
  shows = λ t d c h. omega arith;
  today_ahead = λ t c h k. omega arith;
  runs_today = λ t u c h k from upto. (omega arith, omega arith);
  tomorrow_ahead = λ t c. omega arith;
  runs_on = λ t u c h from upto. omega arith;
}

abbrev night : Window
night = record {
  enabled = true;
  start = record { hour = 22; minute = 0 };
  end = record { hour = 6; minute = 0 };
  zone = utc;
}

contains_lem_example : contains night (23 * 60 * minute) ≡ (
    true
    && ltb
        (minutes_from (minutes night.start) (23 * 60 * minute / minute % 1440))
        (minutes_from (minutes night.start) (minutes night.end)))
contains_lem_example =
    contains_lem night (23 * 60 * minute) (omega arith) (omega arith) (omega arith)

next_open_lem_example :
    (23 * 60 * minute ≤ next_open night (23 * 60 * minute))
    × (contains night (next_open night (23 * 60 * minute)) ≡ false)
    × ((u : Time)
        → 23 * 60 * minute ≤ u
        → u < next_open night (23 * 60 * minute)
        → contains night u ≡ true)
next_open_lem_example =
    next_open_lem night (23 * 60 * minute) utc-IsRegular (omega arith) (omega arith)
