-- ===== src/Csi/Status.antt =====
-- internal/csi/errors.go: every error becomes a gRPC status.
use nomad_csi_driver.Base.{ℕ, ◌≡◌, refl, Option, none, some, arith}
use nomad_csi_driver.Driver.Errors.{
  Code, Error, coded, exit, api, session_invalid, canceled, deadline_exceeded, plain, status,
}

-- A gRPC status code, by its number in google.golang.org/grpc/codes: Canceled is 1, Unknown 2,
-- and so on up to Unavailable, 14.
unfoldable pub code_for : Code → ℕ
code_for Code.invalid_argument = 3
code_for Code.not_found = 5
code_for Code.already_exists = 6
code_for Code.failed_precondition = 9
code_for Code.out_of_range = 11
code_for Code.resource_exhausted = 8
code_for Code.aborted = 10
code_for Code.unimplemented = 12
code_for Code.unavailable = 14
code_for Code.internal = 13
code_for Code.unknown = 2

-- `none` is a nil error. `errors.Is` sees through the wrapping that `Error` leaves out.
unfoldable pub to_grpc : Option Error → Option Error
unfolding code_for
to_grpc none = none
to_grpc (some (status n)) = some (status n)
to_grpc (some (coded c)) = some (status (code_for c))
to_grpc (some canceled) = some (status 1)
to_grpc (some deadline_exceeded) = some (status 4)
to_grpc (some session_invalid) = some (status 13)
to_grpc (some plain) = some (status 13)
to_grpc (some (exit n)) = some (status 13)
to_grpc (some (api c h)) = some (status 13)

-- What a caller can tell apart: two neutral codes never share a gRPC code.
pub code_for-injective : (a b : Code) → code_for a ≡ code_for b → a ≡ b
unfolding code_for
code_for-injective a b h = ground arith

-- A failure is never reported as success, what is reported is a status, and mapping a second time
-- changes nothing.
pub to_grpc_total :
    (e : Error)
    → ((n : ℕ) × (to_grpc (some e) ≡ some (status n)))
      × (to_grpc (to_grpc (some e)) ≡ to_grpc (some e))
unfolding to_grpc
to_grpc_total (status n) = ((n, refl), refl)
to_grpc_total (coded c) = ((code_for c, refl), refl)
to_grpc_total canceled = ((1, refl), refl)
to_grpc_total deadline_exceeded = ((4, refl), refl)
to_grpc_total session_invalid = ((13, refl), refl)
to_grpc_total plain = ((13, refl), refl)
to_grpc_total (exit n) = ((13, refl), refl)
to_grpc_total (api c h) = ((13, refl), refl)
