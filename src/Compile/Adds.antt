-- ===== src/Compile/Adds.antt =====
-- src/main.cpp: what the passes leave of a new file.
use gbas.Prelude.{◌≡◌, refl, ap, sym, ◌∙◌, subst, [], ◌∷◌, Text}
use gbas.Result.{ok, ok-injective}
use gbas.Ast.{Node, Nodes, nil, cons, label}
use gbas.Parser.Shape.{AllLines, IsLine}
use gbas.Elf.Sections.{symtab, at}
use gbas.Elf.{Elf}
use gbas.Elf.Update.{HasBody}
use gbas.Elf.New.{new_elf, null_symbol}
use gbas.Assembler.Adds.{AddsBytes, AddsTo-symtab, NoLabel, NoLabels, assemble-AddsBytes}
use gbas.Compile.{compile, compile_passes}

IsLine-NoLabel : (n : Node) → IsLine n → NoLabel n
IsLine-NoLabel (label _) h = absurd h
IsLine-NoLabel _ h = tt

AllLines-NoLabels : (ns : Nodes) → AllLines ns → NoLabels ns
AllLines-NoLabels nil h = tt
AllLines-NoLabels (cons n ns) (h, k) = (IsLine-NoLabel n h, AllLines-NoLabels ns k)

-- The table of symbols of a new file has the null symbol alone, and no name is defined.
abbrev pub HasNoSymbol : Elf → Type 0
HasNoSymbol e =
    HasBody e.sections e.curr_symtab_idx (symtab (null_symbol ∷ [])) × (e.symbol_names ≡ [])

new_elf-HasNoSymbol : (e : Elf) → new_elf ≡ ok e → HasNoSymbol e
unfolding new_elf at
new_elf-HasNoSymbol e h = subst HasNoSymbol (ok-injective h) ((_, refl, refl), refl)

-- If all passes accept a program, the object file is a new file in which only sections of bytes
-- have more bytes behind those that they had, and the selected sections of bytes and of
-- relocations may be others. All else is as in the new file: its table of symbols holds the null
-- symbol alone, and it defines no name.
pub compile-AddsBytes :
    (input : Text) {e : Elf}
    → compile input ≡ ok e
    → (new : Elf) × (new_elf ≡ ok new) × AddsBytes new e × HasNoSymbol e
compile-AddsBytes input {e} h =
    let (_, ns, new, _, _, lines, q, run) = compile_passes input h in
    let (adds, same) = assemble-AddsBytes ns new (AllLines-NoLabels ns lines) run in
    let (table, names) = new_elf-HasNoSymbol new q in
    (
      new,
      q,
      (adds, same),
      (
        subst (λ i. HasBody e.sections i (symtab (null_symbol ∷ [])))
            (sym (ap (λ x. x.curr_symtab_idx) same))
            (AddsTo-symtab new.curr_symtab_idx (null_symbol ∷ []) adds table),
        ap (λ x. x.symbol_names) same ∙ names,
      ),
    )
