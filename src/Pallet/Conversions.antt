-- ===== src/Pallet/Conversions.antt =====
-- What the conversion of the `ismp` crate's errors loses.
use ismp_substrate.Base.{ℕ, ◌≢◌, arith}
use ismp_substrate.Ismp.{StateMachine, IsmpError}
use ismp_substrate.Pallet.Errors.{HandlingError, from_error}

-- No error of the `ismp` crate is reported as a failed verification of a request, the one that
-- names it included.
pub from_error_never_request :
    (e : IsmpError) (nonce : ℕ) (source dest : StateMachine)
    → from_error e ≢ HandlingError.request_verification_failed nonce source dest
unfolding from_error
from_error_never_request e nonce source dest = ground arith
