-- ===== src/Tests/Sections.antt =====
-- The theorems on new sections and their relocations, at a small file.
use gbas.Prelude.{
  true, ltb, ◌≡◌, length, any, text_eq, refl, false, List, [], ◌∷◌, ◌++◌, Text, codes,
}
use gbas.Result.{ok}
use gbas.Elf.Sections.{Section, Sym, Body, at, find_section, u32}
use gbas.Elf.{add_section, Elf, new_symbol, set_section, add_symbol}
use gbas.Elf.New.{new_elf}
use gbas.Elf.Names.{Distinct, section_names, add_section-Distinct}
use gbas.Elf.Relocations.{IsRelocated, add_symbol-IsRelocated}
use gbas.Elf.Update.{HasBody}
use gbas.Tests.Objects.{blank, or_else, blank_header}

abbrev start : Elf
unfolding new_elf
start = or_else new_elf blank

-- A second section of code with one for its relocations, in a new file, and selected.
abbrev extra : Section
extra = record { name = codes "extra"; header = blank_header; body = Body.progbits [] }

abbrev with_extra : Elf
unfolding start add_section
with_extra = or_else (add_section extra true start) blank

with_extra_run :
    (add_section extra true start ≡ ok with_extra)
    × Distinct (section_names start.sections)
    × (ltb (find_section start.sections (codes "relextra")) (length start.sections) ≡ false)
unfolding with_extra start add_section find_section
with_extra_run = (refl, (refl, (refl, (refl, (refl, (refl, (refl, (refl, (refl, tt)))))))), refl)

add_section-Distinct_example :
    (section_names with_extra.sections
      ≡ section_names start.sections ++ codes "extra" ∷ codes "relextra" ∷ [])
    × Distinct (section_names with_extra.sections)
add_section-Distinct_example =
    add_section-Distinct extra true start with_extra_run.1 with_extra_run.2 with_extra_run.0

abbrev in_extra : Elf
unfolding with_extra set_section
in_extra = or_else (set_section (codes "extra") with_extra) blank

in_extra_tables :
    (strings : List Text) × (symbols : List Sym) × HasBody in_extra.sections in_extra.strtab_idx
      (Body.strtab strings)
    × HasBody in_extra.sections in_extra.curr_symtab_idx (Body.symtab symbols)
    × HasBody in_extra.sections in_extra.curr_rel_idx (Body.rel (codes "extra") [])
    × (any (text_eq (codes "start")) in_extra.symbol_names ≡ false)
unfolding in_extra at
in_extra_tables = (_, _, (_, refl, refl), (_, refl, refl), (_, refl, refl), refl)

add_symbol-IsRelocated_example :
    (e' : Elf) × (add_symbol (codes "start") 2 0 0 1 0 true in_extra ≡ ok e')
    × IsRelocated
        (codes "start")
        (codes "extra")
        (new_symbol (u32 (length in_extra_tables.0)) 2 0 0 1 0 in_extra)
        2
        in_extra_tables.0
        in_extra_tables.1
        []
        in_extra
        e'
add_symbol-IsRelocated_example =
    add_symbol-IsRelocated (codes "start") (codes "extra") 2 0 0 1 0 in_extra in_extra_tables.0
      in_extra_tables.1 [] in_extra_tables.5 in_extra_tables.2 in_extra_tables.3 in_extra_tables.4
