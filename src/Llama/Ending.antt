-- ===== src/Llama/Ending.antt =====
-- The end of a translated stream (internal/llamacpp/client.go).
use quantum_runtime.Prelude.{
  String, ◌≡◌, refl, sym, ◌∙◌, ap, subst, inl, inr, List, [], ◌∷◌, ◌++◌, Bool, true, false, not,
  ◌||◌, Option, none, some, ◌==◌, string_eq, Bool-cases,
}
use quantum_runtime.Llama.Stream.{
  Chunk, part, done, problem, closed, Stream, Pipe, raw_present, Line, skipped, finished, malformed,
  choice, read_line, thinking_of, write_chunk, write_last, write_finish, at_end, at_finished,
  at_line, translate_lines, translate_chat_stream,
}
use quantum_runtime.Llama.Chunks.{
  is_last, has_last, parts_of, parts_of_lines, has_last-append, write_chunk-eq, write_last-eq,
  lines-HasParts,
}

module _ (pipe : Pipe)
    (all : (written : List Chunk) (c : Chunk) → pipe.takes written c ≡ true) where
  -- A stream that is closed in order tells its end.
  abbrev IsEnded : Stream → Type 0
  IsEnded s = s.closing ≡ closed → has_last s.chunks ≡ true

  -- The flag of the loop says that the end was told.
  abbrev IsTold : List Chunk → Bool → Type 0
  IsTold written is_done = is_done ≡ true → has_last written ≡ true

  last-IsTold :
      (written : List Chunk) (c : Chunk) → is_last c ≡ true → has_last (written ++ (c ∷ [])) ≡ true
  last-IsTold written c e = has_last-append written c ∙ rw e refl

  before-IsTold :
      (written : List Chunk) (is_done : Bool) (c : Chunk)
      → IsTold written is_done
      → IsTold (written ++ (c ∷ [])) is_done
  before-IsTold written is_done c told e = elim (Bool-cases (is_last c)) [
    | inl last ↦ last-IsTold written c last
    | inr other ↦ has_last-append written c ∙ rw other (told e)
  ]

  write_last-IsEnded :
      (written : List Chunk) (c : Chunk) → is_last c ≡ true → IsEnded (write_last pipe written c)
  write_last-IsEnded written c e closing =
      ap (λ (s : Stream). has_last s.chunks) (write_last-eq pipe all written c)
      ∙ last-IsTold written c e

  write_chunk-IsEnded :
      (written : List Chunk) (c : Chunk) (next : List Chunk → Stream)
      → IsEnded (next (written ++ (c ∷ [])))
      → IsEnded (write_chunk pipe written c next)
  write_chunk-IsEnded written c next h =
      subst IsEnded (sym (write_chunk-eq pipe all written c next)) h

  at_end-IsEnded :
      (broken is_done : Bool) (written : List Chunk)
      → IsTold written is_done
      → IsEnded (at_end pipe broken written is_done)
  at_end-IsEnded true is_done written told e = cc
  at_end-IsEnded false true written told e = told refl
  at_end-IsEnded false false written told e = write_last-IsEnded written (done "stop") refl e

  at_finished-IsEnded :
      (is_done : Bool) (written : List Chunk)
      → IsTold written is_done
      → IsEnded (at_finished pipe written is_done)
  at_finished-IsEnded true written told e = told refl
  at_finished-IsEnded false written told e =
      write_chunk-IsEnded written (done "stop") _
        (λ closing. last-IsTold written (done "stop") refl) e

  module _ (next : List Chunk → Bool → Stream)
      (later : (written : List Chunk) (is_done : Bool)
        → IsTold written is_done
        → IsEnded (next written is_done)) where
    write_finish-IsEnded :
        (written : List Chunk) (is_done : Bool) (reason : Option String)
        → IsTold written is_done
        → IsEnded (write_finish pipe written is_done reason next)
    write_finish-IsEnded written is_done none told = later written is_done told
    write_finish-IsEnded written is_done (some reason) told =
        write_chunk-IsEnded written (done reason) _
          (later _ true (λ e. last-IsTold written (done reason) refl))

    at_line-IsEnded :
        (line : Line) (written : List Chunk) (is_done : Bool)
        → IsTold written is_done
        → IsEnded (at_line pipe written is_done line next)
    at_line-IsEnded skipped written is_done told = later written is_done told
    at_line-IsEnded finished written is_done told = at_finished-IsEnded is_done written told
    at_line-IsEnded malformed written is_done told = λ e. cc
    at_line-IsEnded (choice c) written is_done told = elim (Bool-cases (raw_present c.tool_calls)) [
      | inl e ↦ rw e (write_last-IsEnded written problem refl)
      | inr e ↦ elim (Bool-cases (not (c.content == "") || not (thinking_of c == ""))) [
        | inl e' ↦ rw e (
            rw e' (
              write_chunk-IsEnded written (part c.content (thinking_of c)) _ (
                write_finish-IsEnded _ is_done c.finish_reason
                  (before-IsTold written is_done _ told))))
        | inr e' ↦ rw e (rw e' (write_finish-IsEnded written is_done c.finish_reason told))
      ]
    ]

  lines-IsEnded :
      (broken : Bool) (lines : List String) (written : List Chunk) (is_done : Bool)
      → IsTold written is_done
      → IsEnded (translate_lines pipe broken lines written is_done)
  unfolding translate_lines
  lines-IsEnded broken [] written is_done told = at_end-IsEnded broken is_done written told
  lines-IsEnded broken (line ∷ lines) written is_done told =
      at_line-IsEnded (translate_lines pipe broken lines) (lines-IsEnded broken lines)
        (read_line pipe line) written is_done told

  -- A client that takes every chunk reads, in their order, the parts of the choices up to the end, the
  -- first line that cannot be decoded or the first tool call, and nothing else; and a stream that is
  -- closed without an error has told the client its end or a problem.
  pub translate_chat_stream_lem :
      (broken : Bool) (lines : List String)
      → (parts_of (translate_chat_stream pipe broken lines).chunks ≡ parts_of_lines pipe lines)
        × ((translate_chat_stream pipe broken lines).closing ≡ closed
            → has_last (translate_chat_stream pipe broken lines).chunks ≡ true)
  unfolding translate_chat_stream parts_of
  translate_chat_stream_lem broken lines =
      (lines-HasParts pipe all broken lines [] false, lines-IsEnded broken lines [] false (λ e. cc))
