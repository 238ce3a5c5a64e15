-- ===== src/Llama/Stream.antt =====
-- The translation of a stream of server-sent events into chunks (`translateChatStream` and
-- `translateGenerateStream`, internal/llamacpp/client.go). The stream is the list of the lines that
-- the scanner gives, and whether it then stops with an error. The writer is a pipe whose reader may go
-- away, so a write fails or not.
use quantum_runtime.Prelude.{
  String, List, [], ◌∷◌, ◌++◌, map, Bool, true, false, not, ◌&&◌, ◌||◌, Option, none, some, ◌==◌,
  string_eq, if◌then◌else◌,
}
use quantum_runtime.Prelude.Text.{trim_space, after_prefix}

-- A choice of a chunk. For a completion the content is its text, and there is neither a reasoning nor a
-- tool call.
pub record Choice : Type 0 where
  pub content : String
  pub reasoning_content : String
  pub reasoning : String
  pub tool_calls : String
  pub finish_reason : Option String

-- What is written on the stream: a part, the end, or an error.
pub data Chunk : Type 0 where
  part : (content thinking : String) → Chunk
  done : (reason : String) → Chunk
  problem : Chunk

-- How the stream is closed: in order, or with an error.
pub data Closing : Type 0 where
  closed decode_failed read_failed write_failed : Closing

pub record Stream : Type 0 where
  pub chunks : List Chunk
  pub closing : Closing

-- The decoder of `encoding/json`, and the reader of the pipe, which takes the chunk behind those that
-- it has taken or does not.
pub record Pipe : Type 0 where
  pub decode_chunk : String → Option (List Choice)
  pub takes : List Chunk → Chunk → Bool

-- `rawProvided`.
unfoldable pub raw_provided : String → Bool
raw_provided raw = let trimmed = trim_space raw in not (trimmed == "") && not (trimmed == "null")

-- `rawPresent`.
unfoldable pub raw_present : String → Bool
raw_present raw =
    let trimmed = trim_space raw in
    not (
      trimmed == ""
      || trimmed == "null"
      || trimmed == "false"
      || trimmed == "[]"
      || trimmed == "{}"
      || trimmed == "\"\"")

-- What the loop makes of a line.
pub data Line : Type 0 where
  skipped finished malformed : Line
  choice : Choice → Line

abbrev pub first_choice : Option (List Choice) → Line
first_choice none = malformed
first_choice (some []) = skipped
first_choice (some (c ∷ cs)) = choice c

abbrev pub read_data : Pipe → Option String → Line
read_data pipe none = skipped
read_data pipe (some rest) =
    let text = trim_space rest in
    if text == "[DONE]" then finished else first_choice (pipe.decode_chunk text)

-- A line that is blank or a comment does not begin with `data:` either.
unfoldable pub read_line : Pipe → String → Line
read_line pipe line = read_data pipe (after_prefix "data:" (trim_space line))

abbrev pub or_else : String → String → String
or_else a b = if a == "" then b else a

-- The thinking of a choice.
abbrev pub thinking_of : Choice → String
thinking_of c = or_else c.reasoning_content c.reasoning

module _ (pipe : Pipe) where
  abbrev pub close_with : List Chunk → Closing → Stream
  close_with written closing = record { chunks = written; closing = closing }

  -- A write, behind which the stream is closed with its error or goes on.
  unfoldable pub write_chunk : List Chunk → Chunk → (List Chunk → Stream) → Stream
  write_chunk written chunk next =
      if pipe.takes written chunk
      then next (written ++ (chunk ∷ []))
      else close_with written write_failed

  -- A last write, whose error closes nothing but the stream.
  unfoldable pub write_last : List Chunk → Chunk → Stream
  write_last written chunk =
      close_with (if pipe.takes written chunk then written ++ (chunk ∷ []) else written) closed

  abbrev pub write_part : List Chunk → Choice → (List Chunk → Stream) → Stream
  write_part written c next =
      if not (c.content == "") || not (thinking_of c == "")
      then write_chunk written (part c.content (thinking_of c)) next
      else next written

  abbrev pub write_finish :
      List Chunk → Bool → Option String → (List Chunk → Bool → Stream) → Stream
  write_finish written is_done none next = next written is_done
  write_finish written is_done (some reason) next =
      write_chunk written (done reason) (λ after. next after true)

  -- What stands behind the last line.
  abbrev pub at_end : Bool → List Chunk → Bool → Stream
  at_end broken written is_done =
      if broken
      then close_with written read_failed
      else if not is_done
      then write_last written (done "stop")
      else close_with written closed

  abbrev pub at_finished : List Chunk → Bool → Stream
  at_finished written is_done =
      if not is_done
      then write_chunk written (done "stop") (λ after. close_with after closed)
      else close_with written closed

  abbrev pub at_line : List Chunk → Bool → Line → (List Chunk → Bool → Stream) → Stream
  at_line written is_done skipped next = next written is_done
  at_line written is_done finished next = at_finished written is_done
  at_line written is_done malformed next = close_with written decode_failed
  at_line written is_done (choice c) next =
      if raw_present c.tool_calls
      then write_last written problem
      else write_part written c (λ after. write_finish after is_done c.finish_reason next)

  -- The loop of `translateChatStream`, from the chunks that are written and `done`.
  unfoldable pub translate_lines : (broken : Bool) → List String → List Chunk → Bool → Stream
  translate_lines broken [] written is_done = at_end broken written is_done
  translate_lines broken (line ∷ lines) written is_done =
      at_line written is_done (read_line pipe line) (translate_lines broken lines)

  -- `translateChatStream`.
  unfoldable pub translate_chat_stream : (broken : Bool) → List String → Stream
  translate_chat_stream broken lines = translate_lines broken lines [] false

-- A choice of a completion.
pub record CompletionChoice : Type 0 where
  pub text : String
  pub finish_reason : Option String

abbrev pub as_choice : CompletionChoice → Choice
as_choice c = record {
  content = c.text;
  reasoning_content = "";
  reasoning = "";
  tool_calls = "";
  finish_reason = c.finish_reason;
}

abbrev pub as_choices : Option (List CompletionChoice) → Option (List Choice)
as_choices none = none
as_choices (some cs) = some (map as_choice cs)

-- `translateGenerateStream`, which has the same loop.
unfoldable pub translate_generate_stream :
    (String → Option (List CompletionChoice))
    → (List Chunk → Chunk → Bool)
    → (broken : Bool) → List String
    → Stream
translate_generate_stream decode takes broken lines =
    translate_lines (record { decode_chunk = λ text. as_choices (decode text); takes = takes })
      broken lines [] false
