-- ===== src/Parser/Grammar.antt =====
-- The grammar of expressions, after the comment of include/parser.hpp:
--   addition → multiplication ( ( "+" | "-" ) multiplication )* ;
--   multiplication → unary ( ( "*" | "/" ) unary )* ;
--   unary → "-" unary | primary ;
--   primary → NUMBER | LABEL ;
use gbas.Prelude.{ℕ, ◌+◌, ◌*◌, ◌-◌, Text, ◌<◌, ◌^◌, ◌≡◌, true, false, [], ◌∷◌, ◌++◌, codes}
use gbas.CharUtils.{is_number}
use gbas.Ast.{Node, UnaryOpType, BinaryOpType, binary_op, unary_op, number, label}
use gbas.Evaluate.{byte}
use gbas.Tokenizer.{Token, TokenList}
use gbas.Parser.Classes.{is_label}
use gbas.Parser.Expression.{begins}

-- The number that some digits write, behind digits that write `acc`.
unfoldable pub decimal : ℕ → Text → ℕ
decimal acc [] = acc
decimal acc (c ∷ cs) = decimal (acc * 10 + (c - b'0')) cs

-- What a run of tokens reads as. A numeral stands for its value modulo 256. The sign of a negation is
-- any token that begins with "-".
pub data Unary : TokenList → Node → Type 0 where
  name : {tok : Token} → is_label tok ≡ true → Unary (tok ∷ []) (label tok)
  numeral :
      {tok : Token}
      → is_label tok ≡ false
      → is_number tok ≡ true
      → decimal 0 tok < 2 ^ 31
      → Unary (tok ∷ []) (number (byte (decimal 0 tok)))
  negated :
      {tok : Token} {ts : TokenList} {n : Node}
      → begins b'-' tok ≡ true
      → Unary ts n
      → Unary (tok ∷ ts) (unary_op UnaryOpType.neg n)

-- `Factors left ts n`: with `left` read, the tokens `ts` make it `n`, from left to right.
pub data Factors : Node → TokenList → Node → Type 0 where
  no_factor : {n : Node} → Factors n [] n
  times :
      {left right n : Node} {us ts all : TokenList}
      → Unary us right
      → Factors (binary_op BinaryOpType.mult left right) ts n
      → all ≡ codes "*" ∷ (us ++ ts)
      → Factors left all n
  over :
      {left right n : Node} {us ts all : TokenList}
      → Unary us right
      → Factors (binary_op BinaryOpType.div left right) ts n
      → all ≡ codes "/" ∷ (us ++ ts)
      → Factors left all n

pub data Product : TokenList → Node → Type 0 where
  factors :
      {left n : Node} {us ts all : TokenList}
      → Unary us left
      → Factors left ts n
      → all ≡ us ++ ts
      → Product all n

pub data Terms : Node → TokenList → Node → Type 0 where
  no_term : {n : Node} → Terms n [] n
  plus :
      {left right n : Node} {us ts all : TokenList}
      → Product us right
      → Terms (binary_op BinaryOpType.add left right) ts n
      → all ≡ codes "+" ∷ (us ++ ts)
      → Terms left all n
  minus :
      {left right n : Node} {us ts all : TokenList}
      → Product us right
      → Terms (binary_op BinaryOpType.sub left right) ts n
      → all ≡ codes "-" ∷ (us ++ ts)
      → Terms left all n

pub data Sum : TokenList → Node → Type 0 where
  terms :
      {left n : Node} {us ts all : TokenList}
      → Product us left
      → Terms left ts n
      → all ≡ us ++ ts
      → Sum all n
