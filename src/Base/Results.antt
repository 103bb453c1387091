-- ===== src/Base/Results.antt =====
-- What a service returns that may throw `createError({ statusCode, statusMessage })`.
use Prim.Native.Nat.{ℕ}
use Prim.Native.String.{String}

pub data Result {ℓ} (A : Type ℓ) : Type ℓ where
  ok : A → Result A
  http_error : (status_code : ℕ) (status_message : String) → Result A

-- What the driver throws is answered with 500.
abbrev pub write_error {ℓ} : {A : Type ℓ} → Result A
write_error = http_error 500 "Server Error"
