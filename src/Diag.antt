-- ===== src/Diag.antt =====
-- The aborts of libhydrosphere/source/common/diag/diag_api.cpp, with the macros of
-- include/hs/diag/diag_macro.hpp and the debug log of include/hs/util/util_api.hpp. `vsnprintf` is a
-- parameter.
pub mod Trace
use Prim.Native.String.{String}
use hydrosphere.Common.{ℕ, zero, List, [], ◌∷◌, Bool, true, false, not, ◌==◌, if◌then◌else◌}
use hydrosphere.Svc.{Result}
use hydrosphere.Svc.Stubs.{Stubs}
use hydrosphere.Svc.Api.{output_debug_string, break_process}

-- An argument for a format.
pub data Argument : Type 0 where
  text : String → Argument
  number : ℕ → Argument

pub record Console : Type 1 where
  pub stubs : Stubs
  -- What stands in the stack where a call puts its buffer.
  pub stack : stubs.State → List ℕ
  -- `__hydrosphere_vsnprintf`: the number it returns, and the buffer afterwards.
  pub vsnprintf :
      (str : List ℕ) → (size : ℕ) → (format : String) → (args : List Argument) → ℕ × List ℕ

-- The three forms of `Abort`.
pub data Message : Type 0 where
  no_message : Message
  custom : (format : String) → (args : List Argument) → Message
  with_result : Result → (format : String) → (args : List Argument) → Message

-- The size of `log_buf`.
abbrev pub log_size : ℕ
log_size = 0x200

abbrev pub bar : String
bar = "!!!!!!!!!!!!!!!!!!!!!!!!!!!!!!!!!!!!!!"

module _ (C : Console) where
  open C use {stubs, stack, vsnprintf}

  -- `SNPrintf`, which makes a `va_list` of its arguments for `VSNPrintf`.
  unfoldable pub snprintf :
      (str : List ℕ) → (size : ℕ) → (format : String) → (args : List Argument) → ℕ × List ℕ
  snprintf str size format args = vsnprintf str size format args

  -- __HS_DEBUG_LOG
  unfoldable pub debug_log : (format : String) → (args : List Argument) → stubs.State → stubs.State
  unfolding snprintf
  debug_log format args s =
      let (_, log_buf) = snprintf (stack s) log_size format args in
      (output_debug_string stubs s log_buf log_size).1

  -- __HS_DEBUG_LOG_VARGS
  unfoldable pub debug_log_vargs :
      (format : String) → (args : List Argument) → stubs.State → stubs.State
  debug_log_vargs format args s =
      let (_, log_buf) = vsnprintf (stack s) log_size format args in
      (output_debug_string stubs s log_buf log_size).1

  unfoldable pub abort_simple_impl :
      (failed_condition file_name function_name : String)
      → (line_number : ℕ) → stubs.State
      → stubs.State
  unfolding debug_log
  abort_simple_impl failed_condition file_name function_name line_number s =
      let s1 = debug_log "! Condition: %s" (text failed_condition ∷ []) s in
      let s2 = debug_log "! File: %s" (text file_name ∷ []) s1 in
      let s3 = debug_log "! Function: %s" (text function_name ∷ []) s2 in
      let s4 = debug_log "! Line: %d" (number line_number ∷ []) s3 in
      let s5 = debug_log bar [] s4 in (break_process stubs s5 0 0 0).1

  unfoldable pub abort :
      (failed_condition file_name function_name : String)
      → (line_number : ℕ) → Message
      → stubs.State
      → stubs.State
  unfolding debug_log debug_log_vargs abort_simple_impl
  abort failed_condition file_name function_name line_number no_message s =
      let s1 = debug_log bar [] s in
      let s2 = debug_log "! Hydrosphere Abort" [] s1 in
      abort_simple_impl failed_condition file_name function_name line_number s2
  abort failed_condition file_name function_name line_number (custom format args) s =
      let s1 = debug_log bar [] s in
      let s2 = debug_log "! Hydrosphere Abort with Custom Message" [] s1 in
      let s3 = debug_log "! Custom Message: " [] s2 in
      let s4 = debug_log_vargs format args s3 in
      abort_simple_impl failed_condition file_name function_name line_number s4
  abort failed_condition file_name function_name line_number (with_result result format args) s =
      let s1 = debug_log bar [] s in
      let s2 = debug_log "! Hydrosphere Abort with Result" [] s1 in
      let s3 = debug_log "! Result: 08%x" (number result.value ∷ []) s2 in
      let s4 = debug_log "! Custom Message: " [] s3 in
      let s5 = debug_log_vargs format args s4 in
      abort_simple_impl failed_condition file_name function_name line_number s5

  -- __HS_ABORT_CONDITIONAL with HYDROSPHERE_DEBUG_DIAG and without. The condition has its value, and
  -- its text, which the macro makes of it.
  module _ (debug_diag : Bool) where
    unfoldable pub abort_conditional :
        (condition : Bool)
        → (as_string file function : String) → (line : ℕ) → Message
        → stubs.State
        → stubs.State
    unfolding abort
    abort_conditional condition as_string file function line message s =
        let debug = abort as_string file function line message s in
        let release = abort "" "" "" 0 no_message s in
        if condition then s else (if debug_diag then debug else release)

    -- __HS_DEBUG_ASSERT
    unfoldable pub debug_assert :
        (condition : Bool)
        → (as_string file function : String) → (line : ℕ) → stubs.State
        → stubs.State
    unfolding abort_conditional
    debug_assert condition as_string file function line s =
        let checked =
          abort_conditional condition as_string file function line
            (custom "Debug assertion failed" []) s in
        if debug_diag then checked else s

    -- __HS_ABORT
    unfoldable pub abort_always : (file function : String) → (line : ℕ) → stubs.State → stubs.State
    unfolding abort_conditional
    abort_always file function line s =
        abort_conditional false "false" file function line (custom "Unknown Hydrosphere abort" []) s

    -- __HS_ASSERT
    unfoldable pub assert :
        (condition : Bool)
        → (as_string file function : String) → (line : ℕ) → stubs.State
        → stubs.State
    unfolding abort_conditional
    assert condition as_string file function line s =
        abort_conditional condition as_string file function line (custom "Assertion failed" []) s

    -- __HS_ABORT_UNLESS_NOT_NULL, whose condition is `ptr != nullptr`.
    unfoldable pub abort_unless_not_null :
        (ptr : ℕ) → (as_string file function : String) → (line : ℕ) → stubs.State → stubs.State
    unfolding assert
    abort_unless_not_null ptr as_string file function line s =
        assert (not (ptr == 0)) as_string file function line s

    -- __HS_ABORT_CONDITIONAL_RESULT
    unfoldable pub abort_conditional_result :
        (condition : Bool)
        → (as_string file function : String) → (line : ℕ) → Result
        → stubs.State
        → stubs.State
    unfolding abort_conditional
    abort_conditional_result condition as_string file function line result s =
        abort_conditional condition as_string file function line
          (with_result result "Assertion failed" []) s
