-- ===== src/Compile/Exact.antt =====
-- src/main.cpp: the passes as the relations that describe them, from the lines of the text to the nodes.
use gbas.Prelude.{◌≡◌, ◌↔◌, refl, subst, List, [], ◌∷◌, ◌++◌, Text}
use gbas.Result.{ok}
use gbas.Ast.{Nodes}
use gbas.Tokenizer.{TokenList, eof, get_lines}
use gbas.Tokenizer.Lines.{AllRead, end_lines, tokenize_lem}
use gbas.Parser.Listing.{Listing}
use gbas.Parser.Exact.{parse-Listing}
use gbas.Elf.{Elf}
use gbas.Elf.New.{new_elf}
use gbas.Assembler.{assemble}
use gbas.Compile.{compile, compile_passes}
use gbas.Compile.Accepts.{compile_runs}

-- The lines of the text read as tokens, the tokens of all lines list some nodes, and these fill a
-- new file.
abbrev pub IsCompiled : Text → Elf → Type 0
IsCompiled input e =
    (tss : List TokenList) × (ns : Nodes) × (new : Elf) × AllRead (get_lines input) tss
    × Listing (end_lines tss ++ eof ∷ []) ns
    × (new_elf ≡ ok new)
    × (assemble ns new ≡ ok e)

-- The passes return an object file exactly if each line of the input reads as some tokens of the
-- token language, the tokens of the lines, with their ends and the end of the file, list some
-- nodes by the grammar of programs, and assembling these into a new file returns that file.
pub compile-IsCompiled : (input : Text) (e : Elf) → (compile input ≡ ok e) ↔ IsCompiled input e
compile-IsCompiled input e = (forth, back)
  where
    forth : compile input ≡ ok e → IsCompiled input e
    forth h =
        let (tokens, ns, new, o, p, lines, q, run) = compile_passes input h in
        let (tss, all, split) = (tokenize_lem input tokens).0 o in
        let listing = (parse-Listing tokens ns).0 p in
        (tss, ns, new, all, subst (λ ts. Listing ts ns) split listing, q, run)

    back : IsCompiled input e → compile input ≡ ok e
    back (tss, ns, new, all, listing, q, run) =
        let tokens = end_lines tss ++ eof ∷ [] in
        compile_runs input tokens ns new ((tokenize_lem input tokens).1 (tss, all, refl))
          ((parse-Listing tokens ns).1 listing) q run
