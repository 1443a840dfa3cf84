-- ===== src/Compile/Ends.antt =====
-- src/main.cpp: what the passes throw, and what they return.
use gbas.Prelude.{◌≡◌, refl, sym, ◌∙◌, subst, [], List, Text, arith}
use gbas.Result.{
  Error, Post, raises, returns, tokenizer_exception, parser_exception, assembler_exception,
  elf_exception, out_of_range, undefined, Result, ok, err, ok-injective, Post-bind,
}
use gbas.Ast.{Node, Nodes, nil, cons, DirectiveType, directive}
use gbas.Tokenizer.{tokenize, get_lines}
use gbas.Parser.Program.{parse}
use gbas.Parser.Shape.{parse-AllLines, AllLines, IsLine}
use gbas.Elf.Sections.{section_type, at}
use gbas.Elf.{Elf}
use gbas.Elf.New.{new_elf, new_elf-ok}
use gbas.Compile.{compile, assemble_root}
use gbas.Assembler.{assemble}
use gbas.Assembler.Safe.{IsRefusal, HasName, AllNames, assemble-Fills}
use gbas.Elf.Valid.{IsValid}
use gbas.Parser.Ends.Operands.{IsParserError}
use gbas.Parser.Ends.{parse-IsParserError}
use gbas.Tokenizer.Output.{PointsInto, tokenize-PointsInto}

-- What `compile` throws: the exceptions of the passes.
abbrev pub IsRejection : Error → Type 0
IsRejection (tokenizer_exception _ _ _) = Unit
IsRejection (parser_exception _) = Unit
IsRejection (assembler_exception _) = Unit
IsRejection (elf_exception _) = Unit
IsRejection out_of_range = Unit
IsRejection undefined = Unit
IsRejection _ = ⊥

abbrev Compiles : Result Elf → Type 0
Compiles r = Post IsValid IsRejection r

of_parser : (e : Error) → IsParserError e → IsRejection e
of_parser (parser_exception _) h = tt
of_parser out_of_range h = tt
of_parser undefined h = tt
of_parser _ h = absurd h

of_refusal : (e : Error) → IsRefusal e → IsRejection e
of_refusal (assembler_exception _) h = tt
of_refusal (elf_exception _) h = tt
of_refusal _ h = absurd h

of_tokenizer : (lines : List Text) (e : Error) → PointsInto 0 lines e → IsRejection e
of_tokenizer lines e (_, _, _, _, h, _, _) = rw h tt

IsLine-HasName : (n : Node) → IsLine n → HasName n
IsLine-HasName (directive DirectiveType.section []) h = cc (h.1)
IsLine-HasName _ h = tt

pub AllLines-AllNames : (ns : Nodes) → AllLines ns → AllNames ns
AllLines-AllNames nil h = tt
AllLines-AllNames (cons n ns) (h, k) = (IsLine-HasName n h, AllLines-AllNames ns k)

pub new_elf-IsValid : (e : Elf) → new_elf ≡ ok e → IsValid e
unfolding new_elf at section_type
new_elf-IsValid e h = subst IsValid (ok-injective h) (record {
  names = (_, refl, refl);
  table = (_, refl, refl);
  current = omega arith;
  few = omega arith;
})

assembled : (r : Result Elf) → Post IsValid IsRefusal r → Compiles r
assembled (ok _) (returns v) = returns v
assembled (err x) (raises h) = raises (of_refusal x h)

split {ℓ} :
    {A : Type ℓ} {E : Error → Type 0} (r : Result A)
    → ((e : Error) → r ≡ err e → E e)
    → Post (λ a. r ≡ ok a) E r
split (ok a) f = returns refl
split (err e) f = raises (f e refl)

no_error : (e : Error) → new_elf ≡ err e → ⊥
no_error e h = let k = sym h ∙ new_elf-ok.1 in cc

assembled_root :
    (tokens : List Text) (tree : Node) (e : Elf)
    → parse tokens ≡ ok tree
    → new_elf ≡ ok e
    → Compiles (assemble_root tree e)
unfolding assemble_root
assembled_root tokens tree e p h =
    let (ns, r, lines) = parse-AllLines tokens p in
    rw r (
      assembled (assemble ns e)
        (assemble-Fills ns e (AllLines-AllNames ns lines) (new_elf-IsValid e h)))

-- Every input is either compiled to a file with a table of strings, a table of symbols and a
-- current section, or rejected with an exception of the tokenizer, the parser, the assembler or
-- the file, or by a read past the last token or an overflow in `atoi`: no pass runs out of fuel
-- or casts to a wrong class.
pub compile-Compiles : (input : Text) → Post IsValid IsRejection (compile input)
unfolding compile
compile-Compiles input =
    Post-bind
      (split (tokenize input)
        (λ e h. of_tokenizer (get_lines input) e (tokenize-PointsInto input h)))
      (λ tokens _.
        Post-bind (split (parse tokens) (λ e h. of_parser e (parse-IsParserError tokens h)))
          (λ tree p.
            Post-bind (split new_elf (λ e h. absurd (no_error e h)))
              (λ e h. assembled_root tokens tree e p h)))
