-- ===== src/Tests/Objects.antt =====
-- The theorems on the object file, the assembler and the passes together, at small inputs.
use gbas.Prelude.{
  true, get_or, ℕ, ◌+◌, ◌*◌, ◌/◌, ◌%◌, ◌≡◌, ◌≢◌, ◌<◌, length, drop, take, any, text_eq, refl, false,
  Option, List, [], ◌∷◌, ◌++◌, Text, codes, arith,
}
use gbas.Result.{Result, ok, err, ◌>>=◌}
use gbas.Ast.{
  InstructionType, DirectiveType, Nodes, instruction0, instruction1, register, dregister, number,
  label, directive, nil, cons,
}
use gbas.CharUtils.{is_numeric_op}
use gbas.Tokenizer.{is_word, is_symbol}
use gbas.Parser.Classes.{is_newline, is_comma, is_eof, is_register, is_dregister}
use gbas.Parser.Expression.{operand, register_, dregister_}
use gbas.Elf.Sections.{Shdr, Section, Sym, Body, at, find_section, u32}
use gbas.Elf.{Elf, new_symbol, set_section, add_progbits, add_symbol}
use gbas.Elf.New.{new_elf}
use gbas.Elf.Names.{Distinct}
use gbas.Elf.Extends.{Kept}
use gbas.Elf.Update.{Updated, add_progbits-set_section, add_symbol_lem, IsAdded}
use gbas.Assembler.{
  assemble_node, assemble, register_code, register_instruction, accumulator_instruction,
  dregister_code, dregister_instruction, search_formats, try_format,
}
use gbas.Assembler.Encode.{
  encode_register, encode_dregister, instruction_none, instruction_ra, instruction_d,
}
use gbas.Assembler.Appends.{labels_onto, assemble-Kept, assemble-Distinct}
use gbas.Assembler.Codes.{reg_c, hl, xor, push, alu_code, inc_dec_code, pair_code}
use gbas.Assembler.Refused.{Refused, operand-Refused}
use gbas.Reader.{check_ident}
use gbas.Writer.{write, laid_out, section_bytes, front}
use gbas.Writer.Offsets.{write-Holds}
use gbas.Compile.{compile}
use gbas.Compile.Adds.{HasNoSymbol, compile-AddsBytes}
use gbas.Assembler.Adds.{AddsBytes}

-- The object file of a run, or `d`.
abbrev pub or_else : Result Elf → Elf → Elf
or_else (ok e) d = e
or_else (err _) d = d

abbrev pub blank : Elf
blank = record {
  header = record {
    e_ident = [];
    e_type = 0;
    e_machine = 0;
    e_version = 0;
    e_entry = 0;
    e_phoff = 0;
    e_shoff = 0;
    e_flags = 0;
    e_ehsize = 0;
    e_phentsize = 0;
    e_phnum = 0;
    e_shentsize = 0;
    e_shnum = 0;
    e_shstrndx = Option.none;
  };
  sections = [];
  shstrtab_idx = 0;
  strtab_idx = 0;
  curr_section = 0;
  curr_rel_idx = 0;
  curr_symtab_idx = 0;
  symbol_names = [];
}

abbrev pub new_file : Elf
unfolding new_elf
new_file = or_else new_elf blank

pub new_file_run : new_elf ≡ ok new_file
unfolding new_file
new_file_run = refl

abbrev pub small_program : Nodes
small_program = cons (directive DirectiveType.section (codes "text" ∷ [])) (
    cons (label (codes "start")) (
      cons (instruction0 InstructionType.nop)
        (cons (instruction1 InstructionType.xor (register b'a')) nil)))

abbrev pub assembled : Elf
unfolding assemble new_file register_code register_instruction accumulator_instruction
    search_formats try_format encode_register instruction_none instruction_ra
assembled = or_else (assemble small_program new_file) blank

pub assembled_run : assemble small_program new_file ≡ ok assembled
unfolding assembled add_progbits
assembled_run = refl

-- The bytes of `nop` and `xor a` stand in the section `text`.
text_bytes :
    (s : Section) × (at assembled.sections 5 ≡ ok s) × (s.body ≡ Body.progbits (0x00 ∷ 0xaf ∷ []))
unfolding assembled at add_progbits
text_bytes = (_, refl, refl)

assemble-Kept_example : Kept new_file assembled
assemble-Kept_example = assemble-Kept small_program new_file assembled_run

new_file-Distinct : Distinct new_file.symbol_names
unfolding new_file
new_file-Distinct = tt

assemble-Distinct_example :
    (assembled.symbol_names ≡ labels_onto small_program new_file.symbol_names)
    × Distinct (labels_onto small_program new_file.symbol_names)
assemble-Distinct_example = assemble-Distinct small_program new_file new_file-Distinct assembled_run

abbrev pub blank_header : Shdr
blank_header = record {
  sh_name = 0;
  sh_type = 0;
  sh_flags = 0;
  sh_addr = 0;
  sh_offset = 0;
  sh_size = 0;
  sh_link = 0;
  sh_info = 0;
  sh_addralign = 0;
  sh_entsize = 0;
}

small : length new_file.sections < 4294967296
unfolding new_file
small = omega arith

-- The section `text` of a new file, and what a symbol goes into.
abbrev section_of : Elf → ℕ → Section
unfolding at
section_of e i = elim (at e.sections i) [
  | ok s ↦ s
  | err _ ↦ record { name = []; header = blank_header; body = Body.progbits [] }
]

text_found :
    (at new_file.sections (find_section new_file.sections (codes "text"))
      ≡ ok (section_of new_file 5))
    × ((section_of new_file 5).body ≡ Body.progbits [])
unfolding new_file section_of at find_section
text_found = (refl, refl)

add_progbits-set_section_example :
    (e' : Elf) × ((set_section (codes "text") new_file >>= add_progbits (0xaf ∷ [])) ≡ ok e')
    × ((section_of new_file 5).name ≡ codes "text")
    × Updated new_file.sections
        (find_section new_file.sections (codes "text"))
        (record (section_of new_file 5) { body = Body.progbits ([] ++ 0xaf ∷ []) })
        e'.sections
add_progbits-set_section_example =
    add_progbits-set_section (codes "text") (0xaf ∷ []) [] new_file (section_of new_file 5) small
      text_found.0 text_found.1

tables :
    (strings : List Text) × (symbols : List Sym) × (at new_file.sections new_file.strtab_idx
      ≡ ok (section_of new_file 1))
    × ((section_of new_file 1).body ≡ Body.strtab strings)
    × (at new_file.sections new_file.curr_symtab_idx ≡ ok (section_of new_file 7))
    × ((section_of new_file 7).body ≡ Body.symtab symbols)
unfolding new_file section_of at
tables = (_, _, refl, refl, refl, refl)

fresh :
    (any (text_eq (codes "start")) new_file.symbol_names ≡ false)
    × (new_file.strtab_idx ≢ new_file.curr_symtab_idx)
unfolding new_file
fresh = (refl, omega arith)

add_symbol_example :
    (e' : Elf) × (add_symbol (codes "start") 0 0 0 1 0 false new_file ≡ ok e')
    × IsAdded
        (codes "start")
        (new_symbol (u32 (length tables.0)) 0 0 0 1 0 new_file)
        tables.0
        tables.1
        new_file
        e'
add_symbol_example =
    add_symbol_lem (codes "start") 0 0 0 1 0 new_file (section_of new_file 1)
      (section_of new_file 7) tables.0 tables.1 fresh.0 fresh.1 tables.2 tables.3 tables.4 tables.5

alu_code_example :
    assemble_node (instruction1 InstructionType.xor (register b'c')) new_file
    ≡ add_progbits ((128 + 8 * 5 + 1) ∷ []) new_file
alu_code_example = alu_code InstructionType.xor 5 b'c' 1 new_file xor reg_c

pair_code_example :
    assemble_node (instruction1 InstructionType.push (dregister b'h' b'l')) new_file
    ≡ add_progbits ((0xc5 + 16 * 2) ∷ []) new_file
pair_code_example = pair_code InstructionType.push 0xc5 b'h' b'l' 2 new_file push hl

inc_dec_code_example :
    (assemble_node (instruction1 InstructionType.inc (register b'c')) new_file
      ≡ add_progbits ((4 + 1 % 4) ∷ []) new_file)
    × (assemble_node (instruction1 InstructionType.dec (register b'c')) new_file
        ≡ add_progbits ((5 + 2 * (1 / 2 % 2)) ∷ []) new_file)
inc_dec_code_example = inc_dec_code b'c' 1 new_file reg_c

operand-Refused_example :
    Refused (assemble_node (instruction1 InstructionType.sub (number 3)) new_file)
operand-Refused_example = operand-Refused InstructionType.sub (number 3) new_file refl

abbrev pub source : Text
source = codes ".section text\n nop\n push hl ; save"

abbrev pub compiled : Elf
unfolding compile is_word is_symbol is_numeric_op is_newline is_comma is_eof is_register
    is_dregister operand register_ dregister_ new_elf search_formats dregister_code
    dregister_instruction encode_dregister instruction_d instruction_none
compiled = or_else (compile source) blank

pub compiled_run : compile source ≡ ok compiled
unfolding compiled add_progbits
compiled_run = refl

pub compiled_size : length (write compiled) ≡ 481
unfolding compiled write front section_bytes add_progbits
compiled_size = refl

compile-AddsBytes_example :
    (new : Elf) × (new_elf ≡ ok new) × AddsBytes new compiled × HasNoSymbol compiled
compile-AddsBytes_example = compile-AddsBytes source compiled_run

-- The table of section names, whose offset is behind nine headers, and the symbol table.
new_file_found :
    (s : Section) × (t : Section) × (at (laid_out new_file.sections) 0 ≡ ok s)
    × (at (laid_out new_file.sections) 7 ≡ ok t)
unfolding new_file laid_out at
new_file_found = (_, _, refl, refl)

abbrev symbols : Section
symbols = new_file_found.1

new_file_small : (length new_file.header.e_ident ≡ 16) × (length (write new_file) ≡ 479)
unfolding new_file write front section_bytes
new_file_small = (refl, refl)

pub new_file_facts :
    (length new_file.header.e_ident ≡ 16)
    × (check_ident new_file.header.e_ident ≡ true)
    × (get_or new_file.header.e_ident 4 0 ≡ 1)
    × (new_file.header.e_shentsize ≡ 40)
    × (length new_file.sections ≡ 8)
    × (length (write new_file) ≡ 479)
unfolding new_file write front section_bytes check_ident
new_file_facts = (refl, refl, refl, refl, refl, refl)

write-Holds_example :
    take symbols.header.sh_size (drop symbols.header.sh_offset (write new_file))
    ≡ section_bytes symbols.body
write-Holds_example =
    write-Holds new_file 7 symbols new_file_small.0 (omega (arith, new_file_small.1))
      new_file_found.3
