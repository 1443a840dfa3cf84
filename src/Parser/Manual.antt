-- ===== src/Parser/Manual.antt =====
-- The grammar of lines and programs after the comment of include/parser.hpp, but for labels, which the
-- parser does not read:
--   program → line* EOF ;
--   line → instruction | directive ;
--   instruction → INSTRUCTION newline
--     | INSTRUCTION operand newline
--     | INSTRUCTION operand "," operand newline ;
--   operand → REGISTER | DREGISTER | addition ;
-- It is narrowed to what the tables of the parser allow: an instruction has one of the numbers of
-- operands in its row, and the directive is `.section` with a name, where the comment has none. A line
-- may also be empty. The tokens are given line by line, without the newlines.
use gbas.Prelude.{◌≡◌, true, false, ◌||◌, List, [], ◌∷◌, ◌++◌, ◌==◌, some, codes}
use gbas.Ast.{
  Node, Nodes, DirectiveType, register, dregister, directive, instruction0, instruction1,
  instruction2, nil, cons,
}
use gbas.Tokenizer.{Token, TokenList}
use gbas.Parser.Classes.{InstructionProps, find_instruction, is_register, is_dregister, is_newline}
use gbas.Parser.Grammar.{Sum}

-- An expression that begins with a name of a register is none, nor one that begins with a newline.
pub data Operand : TokenList → Node → Type 0 where
  single : {c : _} → is_register (c ∷ []) ≡ true → Operand ((c ∷ []) ∷ []) (register c)
  pair : {r s : _} → is_dregister (r ∷ s ∷ []) ≡ true → Operand ((r ∷ s ∷ []) ∷ []) (dregister r s)
  sum :
      {tok : Token} {ts : TokenList} {n : Node}
      → is_register tok ≡ false
      → is_dregister tok ≡ false
      → is_newline tok ≡ false
      → Sum (tok ∷ ts) n
      → Operand (tok ∷ ts) n

pub data Line : TokenList → Node → Type 0 where
  alone :
      {tok : Token} {p : InstructionProps}
      → find_instruction tok ≡ some p
      → (0 == p.args1 || 0 == p.args2) ≡ true
      → Line (tok ∷ []) (instruction0 p.type)
  with_one :
      {tok : Token} {p : InstructionProps} {ts : TokenList} {n : Node}
      → find_instruction tok ≡ some p
      → (1 == p.args1 || 1 == p.args2) ≡ true
      → Operand ts n
      → Line (tok ∷ ts) (instruction1 p.type n)
  with_two :
      {tok : Token} {p : InstructionProps} {us ts all : TokenList} {m n : Node}
      → find_instruction tok ≡ some p
      → (2 == p.args1 || 2 == p.args2) ≡ true
      → Operand us m
      → Operand ts n
      → all ≡ us ++ codes "," ∷ ts
      → Line (tok ∷ all) (instruction2 p.type m n)
  section :
      {name : Token}
      → is_newline name ≡ false
      → Line (codes ".section" ∷ name ∷ []) (directive DirectiveType.section (name ∷ []))

pub data Program : List TokenList → Nodes → Type 0 where
  end : Program [] nil
  blank : {tss : List TokenList} {ns : Nodes} → Program tss ns → Program ([] ∷ tss) ns
  line :
      {ts : TokenList} {tss : List TokenList} {n : Node} {ns : Nodes}
      → Line ts n
      → Program tss ns
      → Program (ts ∷ tss) (cons n ns)
