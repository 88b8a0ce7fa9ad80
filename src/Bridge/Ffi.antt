-- ===== src/Bridge/Ffi.antt =====
-- rust/bridge/ffi/src/util.rs: what the C library does with errors and pointers. A pointer is null
-- or points to what its type says, which is what a caller in C has to see to; a null pointer is
-- `none`. A function that writes through a pointer gives back what it points to afterwards.
pub mod Codes
pub mod Optional
use libsignal_client.Common.{
  ℕ, zero, suc, Option, none, some, [], length, take, ◌==◌, if◌then◌else◌,
}
use libsignal_client.Common.Bytes.{Bytes}
use libsignal_client.Error.{SignalProtocolError, Result, ok, err}

-- The payload of a panic is left out; the code of a callback is the bit pattern of the `i32`.
pub data SignalFfiError : Type 0 where
  signal : SignalProtocolError → SignalFfiError
  insufficient_output_size : ℕ → ℕ → SignalFfiError
  null_pointer invalid_utf8_string unexpected_panic : SignalFfiError
  callback_error : ℕ → SignalFfiError
  invalid_type : SignalFfiError

pub data FfiResult {ℓ} (A : Type ℓ) : Type ℓ where
  failed : SignalFfiError → FfiResult A
  done : A → FfiResult A

-- How the body of a function ends.
pub data Ending : Type 0 where
  returned : FfiResult (Unit {0}) → Ending
  panicked : Ending

-- A success is the null pointer.
unfoldable pub run_ffi_safe : Ending → Option SignalFfiError
run_ffi_safe (returned (done u)) = none
run_ffi_safe (returned (failed e)) = some e
run_ffi_safe panicked = some unexpected_panic

-- A result, and what an out-parameter points to.
abbrev pub Written : Type 0 → Type 0
Written A = FfiResult (Unit {0}) × Option A

module _ {A : Type 0} where
  unfoldable pub box_object : Option (Option A) → Result A → Written (Option A)
  box_object none obj = (failed null_pointer, none)
  box_object (some old) (ok o) = (done tt, some (some o))
  box_object (some old) (err e) = (failed (signal e), some none)

  unfoldable pub box_optional_object : Option (Option A) → Result (Option A) → Written (Option A)
  box_optional_object none obj = (failed null_pointer, none)
  box_optional_object (some old) (ok (some o)) = (done tt, some (some o))
  box_optional_object (some old) (ok none) = (done tt, some none)
  box_optional_object (some old) (err e) = (failed (signal e), some none)

  unfoldable pub native_handle_cast_optional : Option A → FfiResult (Option A)
  native_handle_cast_optional none = done none
  native_handle_cast_optional (some o) = done (some o)

  -- `native_handle_cast` and `native_handle_cast_mut`
  unfoldable pub native_handle_cast : Option A → FfiResult A
  native_handle_cast none = failed null_pointer
  native_handle_cast (some o) = done o

  -- `write_uint32_to` and `write_uint64_to`. An error leaves what was there.
  unfoldable pub write_to : Option A → Result A → Written A
  write_to none value = (failed null_pointer, none)
  write_to (some old) (ok v) = (done tt, some v)
  write_to (some old) (err e) = (failed (signal e), some old)

-- `as_slice` and `as_slice_mut`
unfoldable pub as_slice : Option Bytes → ℕ → FfiResult Bytes
as_slice none input_len = if input_len == 0 then done [] else failed null_pointer
as_slice (some input) input_len = done (take input_len input)

unfoldable pub get_optional_uint32 : Option ℕ → Option ℕ
get_optional_uint32 none = none
get_optional_uint32 (some v) = if v == 0xFFFFFFFF then none else some v

abbrev pub or_sentinel : Option ℕ → ℕ
or_sentinel none = 0xFFFFFFFF
or_sentinel (some v) = v

unfoldable pub write_optional_uint32_to : Option ℕ → Result (Option ℕ) → Written ℕ
write_optional_uint32_to none value = (failed null_pointer, none)
write_optional_uint32_to (some old) (ok value) = (done tt, some (or_sentinel value))
write_optional_uint32_to (some old) (err e) = (failed (signal e), some old)

-- The bytes and their number, through two pointers.
unfoldable pub write_bytearray_to :
    Option Bytes → Option ℕ → Result Bytes → FfiResult (Unit {0}) × Option Bytes × Option ℕ
write_bytearray_to none out_len value = (failed null_pointer, none, out_len)
write_bytearray_to (some old) none value = (failed null_pointer, some old, none)
write_bytearray_to (some old) (some old_len) (ok value) = (done tt, some value, some (length value))
write_bytearray_to (some old) (some old_len) (err e) = (failed (signal e), some old, some old_len)

module _ {A : Type 0} where
  -- `ffi_fn_deserialize`
  unfoldable pub ffi_deserialize :
      (Bytes → Result A)
      → Option (Option A)
      → Option Bytes
      → ℕ
      → Option SignalFfiError × Option (Option A)
  unfolding run_ffi_safe box_object
  ffi_deserialize f p none n = (run_ffi_safe (returned (failed null_pointer)), p)
  ffi_deserialize f p (some bytes) n =
      let (result, p') = box_object p (f (take n bytes)) in (run_ffi_safe (returned result), p')

  -- `ffi_fn_get_optional_uint32`
  unfoldable pub ffi_get_optional_uint32 :
      (A → Result (Option ℕ)) → Option A → Option ℕ → Option SignalFfiError × Option ℕ
  unfolding run_ffi_safe write_optional_uint32_to
  ffi_get_optional_uint32 body none out = (run_ffi_safe (returned (failed null_pointer)), out)
  ffi_get_optional_uint32 body (some obj) out =
      let (result, out') = write_optional_uint32_to out (body obj) in
      (run_ffi_safe (returned result), out')

  -- `ffi_fn_get_bytearray`
  unfoldable pub ffi_get_bytearray :
      (A → Result Bytes)
      → Option A
      → Option Bytes
      → Option ℕ
      → Option SignalFfiError × Option Bytes × Option ℕ
  unfolding run_ffi_safe write_bytearray_to
  ffi_get_bytearray body none out out_len =
      (run_ffi_safe (returned (failed null_pointer)), out, out_len)
  ffi_get_bytearray body (some obj) out out_len =
      let (result, out', out_len') = write_bytearray_to out out_len (body obj) in
      (run_ffi_safe (returned result), out', out_len')

module _ {A B : Type 0} where
  -- `ffi_fn_get_new_boxed_obj`
  unfoldable pub ffi_get_new_boxed_obj :
      (A → Result B) → Option (Option B) → Option A → Option SignalFfiError × Option (Option B)
  unfolding run_ffi_safe box_object
  ffi_get_new_boxed_obj body new_obj none = (run_ffi_safe (returned (failed null_pointer)), new_obj)
  ffi_get_new_boxed_obj body new_obj (some obj) =
      let (result, new_obj') = box_object new_obj (body obj) in
      (run_ffi_safe (returned result), new_obj')

  -- `ffi_fn_get_new_boxed_optional_obj`
  unfoldable pub ffi_get_new_boxed_optional_obj :
      (A → Result (Option B))
      → Option (Option B)
      → Option A
      → Option SignalFfiError × Option (Option B)
  unfolding run_ffi_safe box_optional_object
  ffi_get_new_boxed_optional_obj body new_obj none =
      (run_ffi_safe (returned (failed null_pointer)), new_obj)
  ffi_get_new_boxed_optional_obj body new_obj (some obj) =
      let (result, new_obj') = box_optional_object new_obj (body obj) in
      (run_ffi_safe (returned result), new_obj')

  -- `ffi_fn_get_uint32` and `ffi_fn_get_uint64`
  unfoldable pub ffi_get_uint :
      (A → Result B) → Option A → Option B → Option SignalFfiError × Option B
  unfolding run_ffi_safe write_to
  ffi_get_uint body none out = (run_ffi_safe (returned (failed null_pointer)), out)
  ffi_get_uint body (some obj) out =
      let (result, out') = write_to out (body obj) in (run_ffi_safe (returned result), out')

-- `ffi_fn_clone`
unfoldable pub ffi_clone :
    {A : Type 0} → Option (Option A) → Option A → Option SignalFfiError × Option (Option A)
unfolding ffi_get_new_boxed_obj
ffi_clone new_obj obj = ffi_get_new_boxed_obj (λ o. ok o) new_obj obj
