-- ===== src/Tests/Aborts.antt =====
-- Aborts on a console that records what it is given.
use Prim.Native.Char.{code}
use Prim.Native.String.{String}
use hydrosphere.Common.{
  ℕ, zero, suc, ◌≡◌, refl, true, false, List, [], ◌∷◌, ◌++◌, length, has, arith,
}
use hydrosphere.Svc.{result}
use hydrosphere.Svc.Stubs.{Stubs}
use hydrosphere.Diag.{Argument, text, number, Console, with_result, debug_log, abort_conditional}
use hydrosphere.Diag.Trace.{
  Event, printed, broke, take, drop, c_string, Observed, seen, report, abort_conditional-seen,
  debug_log-leaks,
}
use hydrosphere.Tests.Events.{one_event}

abbrev codes : String → List ℕ
codes String.[] = []
codes (String.◌∷◌ c s) = code c ∷ codes s

abbrev argument_codes : List Argument → List ℕ
argument_codes [] = []
argument_codes (text s ∷ rest) = 32 ∷ codes s ++ argument_codes rest
argument_codes (number n ∷ rest) = 32 ∷ n ∷ argument_codes rest

-- The format with its arguments behind it.
abbrev pub words : String → List Argument → List ℕ
words format args = c_string (codes format ++ argument_codes args)

abbrev pub recorder : Stubs
recorder = record {
  State = List Event;
  arbitrate_lock = λ s o a r. (result 0, s);
  arbitrate_unlock = λ s a. (result 0, s);
  output_debug_string = λ s str n. (result 0, s ++ printed str n ∷ []);
  signal_process_wide_key = λ s a n. (result 0, s);
  wait_process_wide_key_atomic = λ s m c h t. (result 0, s);
  sleep_thread = λ s n. s;
  close_handle = λ s h. (result 0, s);
  start_thread = λ s h. (result 0, s);
  wait_synchronization = λ s hs n t. (result 0, 0, s);
  create_thread = λ s e a t p c. (result 0, record { value = 5 }, s);
  exit_thread = λ s. s;
  exit_process = λ s. s;
  get_thread_priority = λ s h. (result 0, 44);
  set_thread_priority = λ s h p. (result 0, s);
  query_memory = λ s a. one_event.query_memory true a;
  get_info = λ s t h n. (result 0, 0);
  map_memory = λ s d a n. (result 0, s);
  unmap_memory = λ s d a n. (result 0, s);
  break_process = λ s a b c. (result 0, s ++ broke a b c ∷ []);
  get_system_tick = λ s. (0, s);
  create_event = λ s. (result 0, record { value = 3 }, record { value = 4 }, s);
  signal_event = λ s h. (result 0, s);
  clear_event = λ s h. (result 0, s);
  reset_signal = λ s h. (result 0, s);
}

abbrev written : List ℕ → ℕ → List ℕ → List ℕ
written str zero said = str
written str (suc size) said = take size said ++ 0 ∷ drop (suc (length (take size said))) str

-- The stack has the byte 7 in six places.
abbrev pub console : Console
console = record {
  stubs = recorder;
  stack = λ s. 7 ∷ 7 ∷ 7 ∷ 7 ∷ 7 ∷ 7 ∷ [];
  vsnprintf = λ str size format args. (0, written str size (words format args));
}

pub c_string-no_zero : (xs : List ℕ) → has 0 (c_string xs) ≡ false
c_string-no_zero [] = refl
c_string-no_zero (x ∷ xs) = ground (arith, c_string-no_zero xs)

unfoldable pub console-Observed : Observed console
console-Observed = record {
  trace = λ s. s;
  formatted = words;
  prints = λ s str size. refl;
  breaks = λ s a b c. refl;
  no_zero = λ format args. c_string-no_zero (codes format ++ argument_codes args);
  writes = λ str size format args. refl;
}

abort_conditional-seen_example :
    seen console console-Observed (
      abort_conditional console true false "ok" "os.cpp" "Wait" 9
        (with_result (result 0xEA01) "late" [])
        [])
    ≡ report console console-Observed "ok" "os.cpp" "Wait" 9 (with_result (result 0xEA01) "late" [])
unfolding console-Observed
abort_conditional-seen_example =
    abort_conditional-seen console console-Observed true false "ok" "os.cpp" "Wait" 9
      (with_result (result 0xEA01) "late" []) []

debug_log-leaks_example :
    (buffer : List ℕ) × (debug_log console "ab" [] [] ≡ printed buffer 0x200 ∷ [])
    × (c_string buffer ≡ 0x61 ∷ 0x62 ∷ [])
    × (drop 3 buffer ≡ 7 ∷ 7 ∷ 7 ∷ [])
unfolding debug_log console-Observed
debug_log-leaks_example = debug_log-leaks console console-Observed "ab" [] []
