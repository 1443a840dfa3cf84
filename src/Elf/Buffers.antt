-- ===== src/Elf/Buffers.antt =====
-- src/elf.cpp, include/elf.hpp: the operations on bytes that the program does not call.
use gbas.Prelude.{ℕ, ◌+◌, List, ◌++◌, length, take, leb, if◌then◌else◌}
use gbas.Result.{Result, ok, err, ◌>>=◌, bad_cast, undefined}
use gbas.Elf.Sections.{Section, Body, u32}
use gbas.Elf.{Elf, add_progbits}

-- `add_progbits` of the `n` bytes at a pointer, where `memory` are the bytes that may be read there.
-- The test of the section comes before they are read.
unfoldable pub add_progbits_at : List ℕ → ℕ → Elf → Result Elf
unfolding add_progbits
add_progbits_at memory n e =
    if leb n (length memory)
    then add_progbits (take n memory) e
    else (add_progbits (take n memory) e >>= λ _. err undefined)

-- `ProgramSection::append`.
unfoldable pub append : List ℕ → Section → Result Section
append buf s = elim s.body [
  | Body.progbits old ↦ ok (record s {
    body = Body.progbits (old ++ buf);
    header = record s.header { sh_size = u32 (s.header.sh_size + length buf) };
  })
  | _ ↦ err bad_cast
]
