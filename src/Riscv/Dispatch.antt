-- ===== src/Riscv/Dispatch.antt =====
-- The choice of the instruction function: decode_and_exec and decode_and_exec_c of
-- src/cpu/riscv/execute.cpp, whose bodies scripts/riscv-decoder-gen makes of src/cpu/riscv/instpat.
pub mod Rows
pub mod Base
pub mod Compressed
pub mod Laws
mod Tests
use kxemu.Base.Shared.{ℕ, bit_and, Bool, ◌==◌, if◌then◌else◌, List, [], ◌∷◌, Option, none, some}
use Rows.{Row, row, Group, group, Target}

-- The `case` of a switch for `inst & mask`.
unfoldable pub find_case : ℕ → List Row → Option Target
find_case masked [] = none
find_case masked (row key t ∷ rows) = if masked == key then some t else find_case masked rows

-- One switch after another; a `case` returns.
unfoldable pub decode : List Group → ℕ → Option Target
decode [] inst = none
decode (group mask rows ∷ groups) inst =
    let rest = decode groups inst in
    elim (find_case (bit_and inst mask) rows) [ some t ↦ some t | none ↦ rest ]
