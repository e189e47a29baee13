-- ===== src/Server/Wire/Rounds.antt =====
-- src/server.rs, `operation_attributes_well_ordered`: the loop over the bytes ends.
use ipp_printer_app.Base.{List, arith, length, suc, zero, ℕ, ◌+◌, ◌<◌, ◌≡◌}
use ipp_printer_app.Server.Wire.{be_u16, slice, push_name, first_names}

-- The loop that reads the first attribute names needs no more rounds than there are bytes after its index, and one:
-- with that many or more rounds to spend, the result does not depend on the number.
pub first_names-enough :
    (m n : ℕ) (body : List ℕ) (i : ℕ) (names : List (List ℕ))
    → length body < i + m
    → length body < i + n
    → 0 < m
    → 0 < n
    → first_names m body i names ≡ first_names n body i names
unfolding first_names
first_names-enough zero n body i names h k p q = absurd (omega arith)
first_names-enough (suc m) zero body i names h k p q = absurd (omega arith)
first_names-enough (suc m) (suc n) body i names h k p q =
    let name_len = be_u16 body (i + 1) in
    let value_at = i + 3 + name_len in
    ground (
      arith,
      first_names-enough m n body (value_at + 2 + be_u16 body value_at)
          (push_name name_len (slice body (i + 3) name_len) names),
    )
