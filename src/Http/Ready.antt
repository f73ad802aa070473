-- ===== src/Http/Ready.antt =====
-- ParseWrite on a file that can be sent leaves a response that Write delivers.
use mathlib.Core.Path.{subst}
use wslyh.Base.{
  Bool, Bytes, ap, arith, false, length, pos, refl, some, sym, take, to_int, true, ℕ, ◌++◌, ◌+◌,
  ◌<◌, ◌^◌, ◌∙◌, ◌≡◌,
}
use wslyh.Request.{DecodeState}
use wslyh.Http.{Http, max_buff_size}
use wslyh.Http.Lines.{add_headers, add_status_line, status_line}
use wslyh.Http.Respond.{FileStat, ok_200_title, parse_write, send_file, serve}
use wslyh.Http.Page.{Added, head-Added, headers_text}
use wslyh.Http.Serve.{IsIdle}
use wslyh.Http.Deliver.{IsReady}

-- the status line and the headers of the response with a file of `n` bytes
abbrev pub file_head : ℕ → Bool → Bytes
file_head n linger = status_line 200 ok_200_title ++ headers_text (to_int n) linger

to_int-small : (n : ℕ) → n < 2 ^ 31 → to_int n ≡ pos n
unfolding to_int
to_int-small n h = ground arith

module _ (file : FileStat) (h : Http) (idle : IsIdle h) (unsent : h.data_send_len ≡ 0)
    (shown : file.others_read ≡ true) (plain : file.is_dir ≡ false)
    (room : length (file_head (length file.contents) h.linger) + 1 < max_buff_size)
    (small : length file.contents + max_buff_size < 2 ^ 31) where
  abbrev mapped : Http
  mapped = record h { file_addr = some file.contents }

  abbrev head : Bytes
  head = file_head (length file.contents) h.linger

  added :
      Added head mapped
        (add_headers (to_int (length file.contents)) (add_status_line 200 ok_200_title mapped).0)
  added =
      head-Added 200 ok_200_title (to_int (length file.contents)) mapped
        (idle.sized, omega (arith, idle.no_text))

  abbrev with_head : Http
  with_head =
      (add_headers (to_int (length file.contents)) (add_status_line 200 ok_200_title mapped).0).0

  head_len : with_head.write_idx ≡ length head
  head_len = omega (arith, added.0.idx_is, idle.no_text)

  -- For a complete request, and a regular file that others may read, of less than 2 ^ 31 bytes with the
  -- write buffer, ParseWrite on an idle connection returns true and leaves a 200 response with the
  -- length of the file ready to be sent: its head composed and the file mapped.
  pub parse_write-IsReady :
      ((parse_write (some file) DecodeState.complete h).1 ≡ true)
      × IsReady head file.contents (parse_write (some file) DecodeState.complete h).0
  unfolding parse_write serve send_file
  parse_write-IsReady =
      rw (shown, plain)
        (
          refl,
          record {
            fits = omega (arith, added.0.sized);
            head_is =
                subst (λ n. take n with_head.write_data ≡ head) head_len
                  (added.0.text_is
                    ∙ subst (λ n. take n h.write_data ++ head ≡ head) (sym idle.no_text) refl);
            head_len = head_len;
            file_is = ap (λ (x : Http). x.file_addr) added.0.rest;
            nothing_sent = ap (λ (x : Http). x.data_send_len) added.0.rest ∙ unsent;
            all_data =
                to_int-small _ (omega (arith, head_len))
                ∙ ap (λ n. pos (n + length file.contents)) head_len;
            iv_head_is = ap (λ n. record { iov_base = pos 0; iov_len = n }) head_len;
            iv_file_is = refl;
          },
        )

  -- the members that ParseWrite leaves
  pub parse_write-kept :
      ((parse_write (some file) DecodeState.complete h).0.linger ≡ h.linger)
      × ((parse_write (some file) DecodeState.complete h).0.sock_fd ≡ h.sock_fd)
      × ((parse_write (some file) DecodeState.complete h).0.trigger_mode ≡ h.trigger_mode)
  unfolding parse_write serve send_file
  parse_write-kept =
      rw (shown, plain)
        (
          ap (λ (x : Http). x.linger) added.0.rest,
          ap (λ (x : Http). x.sock_fd) added.0.rest,
          ap (λ (x : Http). x.trigger_mode) added.0.rest,
        )
