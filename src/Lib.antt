-- ===== src/Lib.antt =====
-- gbas, an assembler for the Game Boy: its passes, from the text of a program to the object file.
--
-- The program reads a text in lines (`Tokenizer::tokenize`), parses the tokens by recursive descent
-- (`Parser::parse`), and walks over the tree to fill an object file (`Assembler::assemble`, which calls
-- `ELF::set_section`, `ELF::add_symbol` and `ELF::add_progbits`). `ELFWriter` writes the file.
--
-- What models what:
--   CharUtils      include/char_utils.hpp, the classes of characters.
--   Tokenizer      src/tokenizer.cpp and include/tokenizer.hpp. `step` is a round of the loop over a
--                  line, `tokenize_line` the body of the loop over lines, `tokenize` the function. Its
--                  children hold a lexer without a state machine (Lex), the token language as a
--                  relation (Language, and Lines for a whole input), and the proofs that relate
--                  them.
--   Ast            include/parser.hpp, namespace AST. A node is a value: no pass changes one.
--   Parser         src/parser.cpp. Parser/Classes has the tables and the tests on tokens,
--                  Parser/Expression the operands, Parser/Program lines and the program. The position
--                  in the vector of tokens is the list of the tokens that are left.
--                  Parser/Grammar is the grammar of expressions of include/parser.hpp, Parser/Manual
--                  that of its lines and programs without labels, narrowed to the operands that the
--                  tables of the parser give, Parser/Listing the grammar of lines and programs as
--                  the parser reads them. Parser/Newlines is about the search for the end of a
--                  line. `atoi` is that of the C library.
--   Evaluate       src/assembler.cpp, `Assembler::evaluate` and its helpers. Evaluate/Means tells what
--                  an expression stands for, as a relation.
--   Elf            src/elf.cpp and include/elf.hpp. The unique pointers to sections are a list of
--                  records, a `dynamic_cast` is a test of the body of a section, and `sections_.at(i)`
--                  with a change of what it refers to is `modify_at`. Elf/New is the constructor,
--                  Elf/Valid the invariant, Elf/Symbols the types and bindings of symbols,
--                  Elf/Buffers what the program does not call.
--   Assembler      src/assembler.cpp, `assemble` and `assembleInstruction`. Assembler/Encode has the
--                  encoders, Assembler/Templates those that are never instantiated,
--                  Assembler/Formats the table of operands. Assembler/Image tells the bytes of a
--                  program from its tree alone.
--   Words          include/swap_helpers.hpp, and numbers as bytes, the lowest first.
--   Writer         src/elf_writer.cpp, `ELFWriter::write`: `laid_out` has the headers before they are
--                  swapped, `written` the object file with the headers as `write` leaves them,
--                  `front` the bytes of all headers, `write` those of the file.
--                  Writer/Layout has the bytes of headers with the highest of a number first.
--   Reader         src/elf_reader.cpp, `ELFReader::read`: `read_behind` is what follows the reading of
--                  the file header, `read_tables` the table of headers and the names of sections.
--                  Reader/Declared reads headers in the order of bytes that a file declares,
--                  Reader/Entry tells what a file contains by its headers, read with the highest
--                  byte of each number first.
--   Compile        src/main.cpp, the passes in their order up to the writer. Compile/Machine has the
--                  machine code of a program after the tables of the processor.
--   Main           src/main.cpp, `main`: the options, the file that is named, and the passes.
--   Prelude, Result  shared names, and the result of a call: a value, or the exception that it throws.
--                  An exception ends the program, so it carries no state.
--   Tests          runs on small inputs, and the theorems at concrete inputs.
--
-- Bytes and characters are natural numbers; a conversion to a narrower type is written out (`byte`,
-- `u8`, `u32`). The constants of elf.h are their values. Overflow of `std::atoi` and division by zero
-- are the error `undefined`.
--
-- Fuel: the loop over a line is given four rounds for each character and five more. The parser is
-- given one unit more than there are tokens, and each round of a loop and each nested sign takes one.
-- The error `out_of_fuel` stands for running out, and no call meets it: the results below on
-- `tokenize` and `parse` give every error that the two return.
--
-- Parameters: what `getopt_long` returns, the texts of the files that can be opened, and whether a
-- stream admits a `seekg` to an offset. No property of them is assumed.
--
-- Not modelled: what is printed, but for the tokens and, by itself, the report of an error in
-- Tokenizer/Reports; the opening of the file that is written; the visitor classes of the tree, which
-- the program does not use; the functions that include/parser.hpp declares and no file defines;
-- machines on which the highest byte of a number comes first.
pub mod Prelude
pub mod Result
pub mod CharUtils
pub mod Ast
pub mod Evaluate
pub mod Parser
pub mod Tokenizer
pub mod Elf
pub mod Assembler
pub mod Words
pub mod Writer
pub mod Reader
pub mod Compile
pub mod Main
pub mod Tests
