-- ===== src/Llama/Chunks.antt =====
-- What a client reads of a translated stream (internal/llamacpp/client.go).
use mathlib.Core.List.{append-nil, append_assoc}
use quantum_runtime.Prelude.{
  String, ◌≡◌, refl, sym, ◌∙◌, ap, inl, inr, List, [], ◌∷◌, ◌++◌, Bool, true, false, not, ◌||◌,
  Option, none, some, ◌==◌, string_eq, if◌then◌else◌, Bool-cases,
}
use quantum_runtime.Llama.Stream.{
  Choice, Chunk, part, done, problem, closed, Stream, Pipe, raw_present, Line, skipped, finished,
  malformed, choice, read_line, thinking_of, write_chunk, write_last, write_part, write_finish,
  at_end, at_finished, at_line, translate_lines,
}

-- Whether a client learns from the chunks that nothing follows.
abbrev pub is_last : Chunk → Bool
is_last (part content thinking) = false
is_last (done reason) = true
is_last problem = true

unfoldable pub has_last : List Chunk → Bool
has_last [] = false
has_last (c ∷ cs) = is_last c || has_last cs

-- The parts of the chunks.
unfoldable pub parts_of : List Chunk → List (String × String)
parts_of [] = []
parts_of (part content thinking ∷ cs) = (content, thinking) ∷ parts_of cs
parts_of (done reason ∷ cs) = parts_of cs
parts_of (problem ∷ cs) = parts_of cs

-- The parts of a choice, and those of the lines up to the end, the first line that cannot be decoded or
-- the first tool call.
abbrev pub parts_of_choice : Choice → List (String × String)
parts_of_choice c =
    if not (c.content == "") || not (thinking_of c == "")
    then (c.content, thinking_of c) ∷ []
    else []

abbrev pub parts_from : Line → List (String × String) → List (String × String)
parts_from skipped rest = rest
parts_from finished rest = []
parts_from malformed rest = []
parts_from (choice c) rest = if raw_present c.tool_calls then [] else parts_of_choice c ++ rest

unfoldable pub parts_of_lines : Pipe → List String → List (String × String)
parts_of_lines pipe [] = []
parts_of_lines pipe (line ∷ lines) = parts_from (read_line pipe line) (parts_of_lines pipe lines)

pub has_last-append :
    (cs : List Chunk) (c : Chunk) → has_last (cs ++ (c ∷ [])) ≡ (is_last c || has_last cs)
unfolding has_last
has_last-append [] c = refl
has_last-append (d ∷ cs) c = elim (Bool-cases (is_last c)) [
  | inl e ↦ rw (has_last-append cs c) (rw e (or_true (is_last d)))
  | inr e ↦ rw (has_last-append cs c) (rw e refl)
]
  where
    or_true : (b : Bool) → (b || true) ≡ true
    or_true true = refl
    or_true false = refl

parts_of-append :
    (cs : List Chunk) (c : Chunk) → parts_of (cs ++ (c ∷ [])) ≡ parts_of cs ++ parts_of (c ∷ [])
unfolding parts_of
parts_of-append [] c = refl
parts_of-append (part a b ∷ cs) c = ap (λ x. (a, b) ∷ x) (parts_of-append cs c)
parts_of-append (done reason ∷ cs) c = parts_of-append cs c
parts_of-append (problem ∷ cs) c = parts_of-append cs c

module _ (pipe : Pipe)
    (all : (written : List Chunk) (c : Chunk) → pipe.takes written c ≡ true) where
  pub write_chunk-eq :
      (written : List Chunk) (c : Chunk) (next : List Chunk → Stream)
      → write_chunk pipe written c next ≡ next (written ++ (c ∷ []))
  unfolding write_chunk
  write_chunk-eq written c next = rw (all written c) refl

  pub write_last-eq :
      (written : List Chunk) (c : Chunk)
      → write_last pipe written c ≡ record { chunks = written ++ (c ∷ []); closing = closed }
  unfolding write_last
  write_last-eq written c = rw (all written c) refl

  -- The stream has the parts that were written and those that are expected.
  abbrev HasParts : List Chunk → List (String × String) → Stream → Type 0
  HasParts written expected s = parts_of s.chunks ≡ parts_of written ++ expected

  ended-HasParts :
      (written : List Chunk) (reason : String)
      → parts_of (written ++ (done reason ∷ [])) ≡ parts_of written
  unfolding parts_of
  ended-HasParts written reason =
      parts_of-append written (done reason) ∙ append-nil (parts_of written)

  at_end-HasParts :
      (broken is_done : Bool) (written : List Chunk)
      → HasParts written [] (at_end pipe broken written is_done)
  at_end-HasParts true is_done written = sym (append-nil _)
  at_end-HasParts false true written = sym (append-nil _)
  at_end-HasParts false false written =
      ap (λ (s : Stream). parts_of s.chunks) (write_last-eq written (done "stop"))
      ∙ ended-HasParts written "stop"
      ∙ sym (append-nil _)

  at_finished-HasParts :
      (is_done : Bool) (written : List Chunk)
      → HasParts written [] (at_finished pipe written is_done)
  at_finished-HasParts true written = sym (append-nil _)
  at_finished-HasParts false written =
      ap (λ (s : Stream). parts_of s.chunks) (write_chunk-eq written (done "stop") _)
      ∙ ended-HasParts written "stop"
      ∙ sym (append-nil _)

  module _ (next : List Chunk → Bool → Stream) (rest : List (String × String))
      (later : (written : List Chunk) (is_done : Bool)
        → HasParts written rest (next written is_done)) where
    write_finish-HasParts :
        (written : List Chunk) (is_done : Bool) (reason : Option String)
        → HasParts written rest (write_finish pipe written is_done reason next)
    write_finish-HasParts written is_done none = later written is_done
    write_finish-HasParts written is_done (some reason) =
        ap (λ (s : Stream). parts_of s.chunks) (write_chunk-eq written (done reason) _)
        ∙ later _ true
        ∙ ap (λ x. x ++ rest) (ended-HasParts written reason)

    choice-HasParts :
        (written : List Chunk) (is_done : Bool) (c : Choice)
        → HasParts written (parts_of_choice c ++ rest) (
            write_part pipe written c
              (λ after. write_finish pipe after is_done c.finish_reason next))
    unfolding parts_of
    choice-HasParts written is_done c =
        elim (Bool-cases (not (c.content == "") || not (thinking_of c == ""))) [
          | inr e ↦ rw e (write_finish-HasParts written is_done c.finish_reason)
          | inl e ↦ rw e (
              ap (λ (s : Stream). parts_of s.chunks)
                (write_chunk-eq written (part c.content (thinking_of c)) _)
              ∙ write_finish-HasParts _ is_done c.finish_reason
              ∙ ap (λ x. x ++ rest) (parts_of-append written _)
              ∙ append_assoc (parts_of written) _ rest)
        ]

    at_line-HasParts :
        (line : Line) (written : List Chunk) (is_done : Bool)
        → HasParts written (parts_from line rest) (at_line pipe written is_done line next)
    unfolding parts_of
    at_line-HasParts skipped written is_done = later written is_done
    at_line-HasParts finished written is_done = at_finished-HasParts is_done written
    at_line-HasParts malformed written is_done = sym (append-nil _)
    at_line-HasParts (choice c) written is_done = elim (Bool-cases (raw_present c.tool_calls)) [
      | inl e ↦ rw e (
          ap (λ (s : Stream). parts_of s.chunks) (write_last-eq written problem)
          ∙ parts_of-append written problem)
      | inr e ↦ rw e (choice-HasParts written is_done c)
    ]

  pub lines-HasParts :
      (broken : Bool) (lines : List String) (written : List Chunk) (is_done : Bool)
      → HasParts written
          (parts_of_lines pipe lines)
          (translate_lines pipe broken lines written is_done)
  unfolding translate_lines parts_of_lines
  lines-HasParts broken [] written is_done = at_end-HasParts broken is_done written
  lines-HasParts broken (line ∷ lines) written is_done =
      at_line-HasParts (translate_lines pipe broken lines) (parts_of_lines pipe lines)
        (lines-HasParts broken lines) (read_line pipe line) written is_done
