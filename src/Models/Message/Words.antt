-- ===== src/Models/Message/Words.antt =====
-- The words of a body against its `argument` and `arguments`.
use pybotx.Common.{
  ℕ, ◌≡◌, sym, ap, ◌∙◌, true, List, [], ◌∷◌, ◌++◌, map, append_assoc, length, drop,
  drop-length-append, length-append, arith,
}
use pybotx.Common.Text.{
  Str, is_space, split, strip, IsWord, split-strip, split-All, emit-last, map-strip, split-space,
  split-command,
}
use pybotx.Models.Message.Argument.{argument, arguments}

argument-split :
    (body command : Str) (words : List Str)
    → split body ≡ command ∷ words
    → argument body ≡ strip (drop (length command) body)
unfolding argument
argument-split body command words e = rw (e, argument)

-- The arguments of a body that starts with its command are the words that follow it.
pub arguments-command :
    (start : ℕ) (command : Str) (space : ℕ) (rest : Str)
    → IsWord (start ∷ command)
    → is_space space ≡ true
    → (split ((start ∷ command) ++ space ∷ rest) ≡ (start ∷ command) ∷ split rest)
      × (arguments ((start ∷ command) ++ space ∷ rest) ≡ split rest)
unfolding arguments
arguments-command start command space rest h k = (
  words,
  ap (λ s. map strip (split s)) follows
      ∙ ap (map strip) (split-strip (space ∷ rest) ∙ split-space space rest k)
      ∙ map-strip (split rest) (split-All rest),
)
  where
    words : split ((start ∷ command) ++ space ∷ rest) ≡ (start ∷ command) ∷ split rest
    words = split-command (start ∷ command) space rest h k

    follows : argument ((start ∷ command) ++ space ∷ rest) ≡ strip (space ∷ rest)
    follows =
        argument-split _ _ _ words ∙ ap strip (drop-length-append (start ∷ command) (space ∷ rest))

-- With one whitespace before the command, the argument starts with the command's last character,
-- although the first word of the body is the command.
pub argument-leading_space :
    (space : ℕ) (start : Str) (last between : ℕ) (rest : Str)
    → is_space space ≡ true
    → IsWord (start ++ last ∷ [])
    → is_space between ≡ true
    → (split (space ∷ (start ++ last ∷ between ∷ rest)) ≡ (start ++ last ∷ []) ∷ split rest)
      × (argument (space ∷ (start ++ last ∷ between ∷ rest)) ≡ strip (last ∷ between ∷ rest))
argument-leading_space space start last between rest h w k =
    (words, argument-split _ _ _ words ∙ ap strip cut)
  where
    words : split (space ∷ (start ++ last ∷ between ∷ rest)) ≡ (start ++ last ∷ []) ∷ split rest
    words =
        split-space space _ h
        ∙ ap split (sym (append_assoc start (last ∷ []) (between ∷ rest)))
        ∙ split-command (start ++ last ∷ []) between rest w k
        ∙ emit-last start last (split rest)

    same_length : length (start ++ last ∷ []) ≡ length (space ∷ start)
    same_length = omega (arith, length-append start (last ∷ []))

    cut :
        drop (length (start ++ last ∷ [])) (space ∷ (start ++ last ∷ between ∷ rest))
        ≡ last ∷ between ∷ rest
    cut =
        ap (λ n. drop n (space ∷ (start ++ last ∷ between ∷ rest))) same_length
        ∙ drop-length-append (space ∷ start) (last ∷ between ∷ rest)
