-- ===== src/Parser/Listing.antt =====
-- What the parser reads, beside the grammar of include/parser.hpp: commas stand anywhere among the
-- operands, no newline is asked for behind a directive, and no line is a label. Each relation is between
-- the tokens from some place on, what is read there, and the tokens that are left.
use gbas.Prelude.{some, ◌≡◌, true, false, ◌||◌, [], ◌∷◌, ◌++◌, List, length, ◌==◌, codes}
use gbas.Result.{ok}
use gbas.Ast.{Node, Nodes, DirectiveType, register, dregister, directive, nil, cons}
use gbas.Tokenizer.{Token, TokenList, eol, eof}
use gbas.Parser.Classes.{
  InstructionProps, find_instruction, is_register, is_dregister, is_newline, is_comma,
}
use gbas.Parser.Expression.{peek}
use gbas.Parser.Program.{make_instruction}
use gbas.Parser.Grammar.{Sum}
use gbas.Parser.Longest.{EndsSum}

-- An expression is taken as far as it goes: no operator stands behind it.
pub data Operand : TokenList → Node → TokenList → Type 0 where
  single :
      {c : _} {rest : TokenList}
      → is_register (c ∷ []) ≡ true
      → Operand ((c ∷ []) ∷ rest) (register c) rest
  pair :
      {r s : _} {rest : TokenList}
      → is_dregister (r ∷ s ∷ []) ≡ true
      → Operand ((r ∷ s ∷ []) ∷ rest) (dregister r s) rest
  sum :
      {ts us rest : TokenList} {n : Node}
      → is_register (peek ts) ≡ false
      → is_dregister (peek ts) ≡ false
      → ts ≡ us ++ rest
      → Sum us n
      → EndsSum rest
      → Operand ts n rest

-- The operands up to the newline.
pub data Operands : TokenList → List Node → TokenList → Type 0 where
  newline : {ts : TokenList} → Operands (eol ∷ ts) [] (eol ∷ ts)
  comma :
      {ts rest : TokenList} {ns : List Node}
      → Operands ts ns rest
      → Operands (codes "," ∷ ts) ns rest
  with_operand :
      {ts mid rest : TokenList} {n : Node} {ns : List Node}
      → is_newline (peek ts) ≡ false
      → is_comma (peek ts) ≡ false
      → Operand ts n mid
      → Operands mid ns rest
      → Operands ts (n ∷ ns) rest

pub data Line : TokenList → Node → TokenList → Type 0 where
  instruction :
      {tok : Token} {p : InstructionProps} {ts rest : TokenList} {ns : List Node} {n : Node}
      → find_instruction tok ≡ some p
      → Operands ts ns rest
      → (length ns == p.args1 || length ns == p.args2) ≡ true
      → make_instruction p ns ≡ ok n
      → Line (tok ∷ ts) n rest
  section :
      {name : Token} {rest : TokenList}
      → is_newline name ≡ false
      → Line (codes ".section" ∷ name ∷ rest) (directive DirectiveType.section (name ∷ [])) rest

-- The tokens of a program, up to "EOF" where a line may begin.
pub data Listing : TokenList → Nodes → Type 0 where
  end : {ts : TokenList} → Listing (eof ∷ ts) nil
  blank : {ts : TokenList} {ns : Nodes} → Listing ts ns → Listing (eol ∷ ts) ns
  line :
      {ts rest : TokenList} {n : Node} {ns : Nodes}
      → Line ts n rest
      → Listing rest ns
      → Listing ts (cons n ns)
