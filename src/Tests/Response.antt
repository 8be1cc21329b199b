-- ===== src/Tests/Response.antt =====
-- The results on responses, at concrete inputs.
use kitserv.Prelude.{
  List, ℕ, ◌+◌, ◌<◌, ◌≤◌, ◌≡◌, refl, true, false, some, [], ◌∷◌, ◌++◌, inl, codes, arith,
}
use kitserv.Prelude.Int.{pos}
use kitserv.Cstring.{Bytes}
use kitserv.Status.{status_is_error}
use kitserv.Client.{Client, Rc, TransactionState, Buffer}
use kitserv.Buffer.{Alloc, Appended, buffer_append, buffer_appendva}
use kitserv.Buffer.Append.{IsValid, buffer_appendva_cut, buffer_append_grow, buffer_append_twice}
use kitserv.Response.Headers.{header_add}
use kitserv.Response.{prepare_response, is_hangup}
use kitserv.Response.Text.{print_int}
use kitserv.Response.HeaderAdd.{AddsOrNothing, IsFilled, header_line, header_add-AddsOrNothing}
use kitserv.Response.Whole.{IsPrepared, prepare_response_fits}
use kitserv.Send.{IoResult, send_response_file, advance, total, resp_bufs}
use kitserv.Send.Writev.{advance_loses}
use kitserv.Send.File.{Left, send_response_file_bounds}
use kitserv.Send.Complete.{send_response_file_completes}
use kitserv.Tests.Data.{served_client, sending_client, file_client, empty_buffer}

abbrev always : Alloc
always n = true

abbrev never : Alloc
never n = false

abbrev valid : IsValid empty_buffer
valid = record { contents = omega arith; backed = omega arith }

abbrev filled : IsFilled served_client
filled = record { written = omega arith; room = omega arith }

-- A body of three bytes.
abbrev page_client : Client
page_client = record served_client { resp_body = record empty_buffer { bytes = codes "abc" } }

abbrev page_filled : IsFilled page_client
page_filled = record { written = omega arith; room = omega arith }

header_add-AddsOrNothing_example :
    AddsOrNothing served_client
      (header_line (codes "allow") (codes "GET"))
      (header_add served_client (codes "allow") (codes "GET"))
header_add-AddsOrNothing_example =
    header_add-AddsOrNothing served_client (codes "allow") (codes "GET") filled

prepare_response_fits_example :
    (d : Client) × (prepare_response never page_client ≡ some (d, Rc.ok))
    × IsPrepared page_client 0 3 d
unfolding is_hangup status_is_error print_int
prepare_response_fits_example =
    prepare_response_fits never page_client 0 3 page_filled refl refl (refl, inl (refl, refl))
      (omega arith)

-- Sixteen bytes.
abbrev full_text : Bytes
full_text = codes "0123456789abcdef"

buffer_appendva_cut_example :
    buffer_appendva never empty_buffer full_text
    ≡ Appended.done (record empty_buffer { bytes = codes "0123456789abcde" ++ 0 ∷ [] })
buffer_appendva_cut_example =
    buffer_appendva_cut never empty_buffer full_text valid (omega arith) (omega arith)

buffer_append_grow_example :
    (always 16 ≡ false
      → buffer_append always empty_buffer full_text ≡ Appended.no_memory empty_buffer)
    × (always 16 ≡ true
        → empty_buffer.bytes ≡ []
        → (b' : Buffer) × (buffer_append always empty_buffer full_text ≡ Appended.done b')
          × (b'.bytes ≡ full_text)
          × (b'.alloc < b'.max))
    × (always 16 ≡ true → 0 < 0 → buffer_append always empty_buffer full_text ≡ Appended.overrun)
buffer_append_grow_example =
    buffer_append_grow always empty_buffer full_text (omega arith) (omega arith)

buffer_append_twice_example :
    buffer_append always (record { alloc = 16; bytes = full_text; max = 256 }) (codes "g")
    ≡ Appended.overrun
unfolding buffer_append
buffer_append_twice_example =
    buffer_append_twice always empty_buffer (record { alloc = 16; bytes = full_text; max = 256 })
      full_text (codes "g") refl (omega arith) refl refl (omega arith) (omega arith)

advance_loses_example : total (advance 4 (resp_bufs sending_client)).0 + 4 < 9
advance_loses_example =
    advance_loses 4 sending_client.ta.resp_buf0
      (sending_client.ta.resp_buf1 ∷ sending_client.ta.resp_buf2 ∷ []) (omega arith) (omega arith)
      (omega arith)

send_response_file_bounds_example :
    (n : ℕ) × (2 ≤ n)
    × (n ≤ 5 + 1)
    × Left n 5 6 (send_response_file file_client (IoResult.moved 3 ∷ IoResult.moved 3 ∷ []))
send_response_file_bounds_example =
    send_response_file_bounds file_client (IoResult.moved 3 ∷ IoResult.moved 3 ∷ []) 6 2 5 refl refl
      refl refl (omega arith)

abbrev pieces : List IoResult
pieces = IoResult.moved 2 ∷ IoResult.moved 1 ∷ IoResult.moved 5 ∷ IoResult.moved 1 ∷ []

send_response_file_completes_example :
    let (res, closed) = send_response_file file_client pieces in
    (res.0.ta.state ≡ TransactionState.done)
    × (res.0.ta.resp_body_pos ≡ pos 6)
    × (res.0.ta.resp_fd ≡ pos 0)
    × (closed ≡ pos 7 ∷ [])
send_response_file_completes_example =
    send_response_file_completes file_client pieces 6 2 5 refl refl refl refl (omega arith)
      (omega arith, (omega arith, (omega arith, (omega arith, tt)))) (omega arith)
