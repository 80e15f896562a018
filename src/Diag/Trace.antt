-- ===== src/Diag/Trace.antt =====
-- What an abort prints, and that it breaks at last.
use Prim.Native.String.{String}
use mathlib.Core.List.{append-nil, append_assoc}
use hydrosphere.Common.{
  ℕ, zero, suc, ◌≡◌, refl, ap, Bool, true, false, List, [], ◌∷◌, ◌++◌, map, length, has, arith,
  ◌==◌, if◌then◌else◌,
}
use hydrosphere.Svc.Api.{output_debug_string, break_process}
use hydrosphere.Diag.{
  Argument, text, number, Console, Message, no_message, custom, with_result, log_size, bar,
  debug_log, debug_log_vargs, snprintf, abort_simple_impl, abort, abort_conditional,
}

-- What the kernel is given: the bytes of a buffer with their number, or a break.
pub data Event : Type 0 where
  printed : (buffer : List ℕ) → (size : ℕ) → Event
  broke : (reason value1 value2 : ℕ) → Event

-- The first `n` bytes, and the bytes behind them.
abbrev pub take : ℕ → List ℕ → List ℕ
take zero xs = []
take (suc n) [] = []
take (suc n) (x ∷ xs) = x ∷ take n xs

abbrev pub drop : ℕ → List ℕ → List ℕ
drop zero xs = xs
drop (suc n) [] = []
drop (suc n) (x ∷ xs) = drop n xs

-- The bytes before the first 0.
abbrev pub c_string : List ℕ → List ℕ
c_string [] = []
c_string (x ∷ xs) = if x == 0 then [] else x ∷ c_string xs

-- `trace` is what the kernel was given so far, and `formatted` the text of a format, which has no byte
-- 0. `vsnprintf` writes the text, cut off to leave a byte, and a 0, and leaves the bytes behind it.
pub record Observed (C : Console) : Type 1 where
  pub trace : C.stubs.State → List Event
  pub formatted : String → List Argument → List ℕ
  pub prints :
      (s : C.stubs.State) (str : List ℕ) (size : ℕ)
      → trace (C.stubs.output_debug_string s str size).1 ≡ trace s ++ printed str size ∷ []
  pub breaks :
      (s : C.stubs.State) (a b c : ℕ)
      → trace (C.stubs.break_process s a b c).1 ≡ trace s ++ broke a b c ∷ []
  pub no_zero : (format : String) (args : List Argument) → has 0 (formatted format args) ≡ false
  pub writes :
      (str : List ℕ) (size : ℕ) (format : String) (args : List Argument)
      → (C.vsnprintf str (suc size) format args).1
        ≡ take size (formatted format args)
          ++ 0 ∷ drop (suc (length (take size (formatted format args)))) str

-- What a reader of the debug output sees: the text of each line, and the breaks.
pub data Sight : Type 0 where
  line : List ℕ → Sight
  break_seen : Sight

abbrev pub sight : Event → Sight
sight (printed buffer size) = line (c_string buffer)
sight (broke a b c) = break_seen

take-no_zero : (n : ℕ) (xs : List ℕ) → has 0 xs ≡ false → has 0 (take n xs) ≡ false
take-no_zero zero xs e = refl
take-no_zero (suc n) [] e = refl
take-no_zero (suc n) (x ∷ xs) e = ground (arith, take-no_zero n xs)

c_string-written : (xs ys : List ℕ) → has 0 xs ≡ false → c_string (xs ++ 0 ∷ ys) ≡ xs
c_string-written [] ys e = refl
c_string-written (x ∷ xs) ys e = ground (arith, c_string-written xs ys)

drop-written : (xs ys : List ℕ) → drop (suc (length xs)) (xs ++ 0 ∷ ys) ≡ ys
drop-written [] ys = refl
drop-written (x ∷ xs) ys = drop-written xs ys

map-snoc :
    {A B : Type 0} (f : A → B) (xs : List A) (y : A) → map f (xs ++ y ∷ []) ≡ map f xs ++ f y ∷ []
map-snoc f [] y = refl
map-snoc f (x ∷ xs) y = ap (λ zs. f x ∷ zs) (map-snoc f xs y)

module _ (C : Console) (O : Observed C) where
  -- What has been seen.
  abbrev pub seen : C.stubs.State → List Sight
  seen s = map sight (O.trace s)

  -- The line of a format: at most 511 bytes.
  abbrev pub line_of : String → List Argument → Sight
  line_of format args = line (take 0x1ff (O.formatted format args))

  -- If `vsnprintf` leaves the bytes behind its text as they are, the debug log sends 0x200 bytes: the
  -- text of the format, cut off after 511 bytes, a byte 0, and then what stood in the stack there.
  pub debug_log-leaks :
      (format : String) (args : List Argument) (s : C.stubs.State)
      → let text : List ℕ = take 0x1ff (O.formatted format args) in
        (buffer : List ℕ) × (O.trace (debug_log C format args s)
          ≡ O.trace s ++ printed buffer 0x200 ∷ [])
        × (c_string buffer ≡ text)
        × (drop (suc (length text)) buffer ≡ drop (suc (length text)) (C.stack s))
  unfolding debug_log snprintf output_debug_string
  debug_log-leaks format args s =
      let text = take 0x1ff (O.formatted format args) in
      let buffer = (C.vsnprintf (C.stack s) log_size format args).1 in
      let written = O.writes (C.stack s) 0x1ff format args in
      (
        buffer,
        O.prints s buffer log_size,
        rw written (
            c_string-written text _
              (take-no_zero 0x1ff (O.formatted format args) (O.no_zero format args))),
        rw written (drop-written text _),
      )

  debug_log_vargs-seen :
      (format : String) (args : List Argument) (s : C.stubs.State)
      → seen (debug_log_vargs C format args s) ≡ seen s ++ line_of format args ∷ []
  unfolding debug_log_vargs output_debug_string
  debug_log_vargs-seen format args s =
      let text = O.formatted format args in
      let buffer = (C.vsnprintf (C.stack s) log_size format args).1 in
      let told : c_string buffer ≡ take 0x1ff text =
        rw (O.writes (C.stack s) 0x1ff format args) (
          c_string-written (take 0x1ff text) _ (take-no_zero 0x1ff text (O.no_zero format args))) in
      rw (O.prints s buffer log_size, map-snoc sight (O.trace s) (printed buffer log_size), told)
        refl

  pub debug_log-seen :
      (format : String) (args : List Argument) (s : C.stubs.State)
      → seen (debug_log C format args s) ≡ seen s ++ line_of format args ∷ []
  unfolding debug_log snprintf debug_log_vargs
  debug_log-seen format args s = debug_log_vargs-seen format args s

  break-seen :
      (s : C.stubs.State) → seen (break_process C.stubs s 0 0 0).1 ≡ seen s ++ break_seen ∷ []
  unfolding break_process
  break-seen s = rw (O.breaks s 0 0 0, map-snoc sight (O.trace s) (broke 0 0 0)) refl

  logs : List (String × List Argument) → C.stubs.State → C.stubs.State
  logs [] s = s
  logs ((format, args) ∷ ls) s = logs ls (debug_log C format args s)

  abbrev pub lines_of : List (String × List Argument) → List Sight
  lines_of [] = []
  lines_of ((format, args) ∷ ls) = line_of format args ∷ lines_of ls

  logs-seen :
      (ls : List (String × List Argument)) (s : C.stubs.State)
      → seen (logs ls s) ≡ seen s ++ lines_of ls
  unfolding logs
  logs-seen [] s = rw append-nil refl
  logs-seen ((format, args) ∷ ls) s =
      rw (logs-seen ls (debug_log C format args s), debug_log-seen format args s, append_assoc) refl

-- The formats of an abort, in their order.
abbrev pub headline : Message → List (String × List Argument)
headline no_message = (bar, []) ∷ ("! Hydrosphere Abort", []) ∷ []
headline (custom format args) =
    (bar, [])
    ∷ ("! Hydrosphere Abort with Custom Message", [])
    ∷ ("! Custom Message: ", [])
    ∷ (format, args)
    ∷ []
headline (with_result result format args) =
    (bar, [])
    ∷ ("! Hydrosphere Abort with Result", [])
    ∷ ("! Result: 08%x", number result.value ∷ [])
    ∷ ("! Custom Message: ", [])
    ∷ (format, args)
    ∷ []

abbrev pub origin :
    (failed_condition file_name function_name : String)
    → (line_number : ℕ) → List (String × List Argument)
origin failed_condition file_name function_name line_number =
    ("! Condition: %s", text failed_condition ∷ [])
    ∷ ("! File: %s", text file_name ∷ [])
    ∷ ("! Function: %s", text function_name ∷ [])
    ∷ ("! Line: %d", number line_number ∷ [])
    ∷ (bar, [])
    ∷ []

module _ (C : Console) (O : Observed C) where
  -- What an abort shows.
  abbrev pub report :
      (failed_condition file_name function_name : String) → (line_number : ℕ) → Message → List Sight
  report failed_condition file_name function_name line_number m =
      lines_of C O (headline m ++ origin failed_condition file_name function_name line_number)
      ++ break_seen ∷ []

  -- An abort as its lines and the break.
  abort-logs :
      (cond file function : String) (line_number : ℕ) (m : Message) (s : C.stubs.State)
      → abort C cond file function line_number m s
        ≡ (break_process C.stubs
            (logs C O (headline m ++ origin cond file function line_number) s)
            0
            0
            0).1
  unfolding abort abort_simple_impl logs debug_log snprintf debug_log_vargs
  abort-logs cond file function line_number no_message s = refl
  abort-logs cond file function line_number (custom format args) s = refl
  abort-logs cond file function line_number (with_result result format args) s = refl

  abort-seen :
      (cond file function : String) (line_number : ℕ) (m : Message) (s : C.stubs.State)
      → seen C O (abort C cond file function line_number m s)
        ≡ seen C O s ++ report cond file function line_number m
  abort-seen cond file function line_number m s =
      let ls = headline m ++ origin cond file function line_number in
      rw
        (
          abort-logs cond file function line_number m s,
          break-seen C O (logs C O ls s),
          logs-seen C O ls s,
          append_assoc,
        )
        refl

  -- A condition that holds shows nothing. One that does not hold shows in a debug build, in this
  -- order, the headline of its message with the message, where it stands in the source, and a break as
  -- the last; and in a release build the same of an abort without a message, with empty texts and
  -- line 0. Each line is the text of its format, cut off after 511 bytes.
  pub abort_conditional-seen :
      (debug_diag condition : Bool) (as_string file function : String) (line_number : ℕ)
      (m : Message) (s : C.stubs.State)
      → seen C O (abort_conditional C debug_diag condition as_string file function line_number m s)
        ≡ seen C O s
          ++ (if condition
              then []
              else (if debug_diag
                  then report as_string file function line_number m
                  else report "" "" "" 0 no_message))
  unfolding abort_conditional
  abort_conditional-seen debug_diag true as_string file function line_number m s =
      rw append-nil refl
  abort_conditional-seen true false as_string file function line_number m s =
      abort-seen as_string file function line_number m s
  abort_conditional-seen false false as_string file function line_number m s =
      abort-seen "" "" "" 0 no_message s
