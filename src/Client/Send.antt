-- ===== src/Client/Send.antt =====
-- The transfer of a file in src/gvar/geostreamd/client.c: client_sendfile, and the handler that
-- calls it until the whole file is sent.
use qjhart_geostreams.Prelude.{
  ℕ, ◌+◌, ◌-◌, ◌≤◌, ◌<◌, ◌≡◌, ap, subst, ◌∙◌, Bool, true, false, Option, none, some, List, [], ◌∷◌,
  ◌++◌, arith, ◌==◌, if◌then◌else◌, length, take, drop, Bool-cases, inl, inr,
}
use qjhart_geostreams.Buffer.Window.{drop-add, take-all, length-drop, take-append-drop}

-- The fields of `struct client` and its `cfile` that a transfer works on. `file` is the content,
-- `mapped` says that `mmap` is not NULL, and `open_fd` that the file's descriptor is above 0.
pub record Transfer : Type 0 where
  pub file : List ℕ
  pub mapped : Bool
  pub open_fd : Bool
  pub content_length : ℕ
  pub of_offset : ℕ

-- What one call returns: the count (`none` is -1), the bytes that went out, and the transfer.
-- `accepted` is what `write` or `sendfile` returns. With neither a mapping nor a descriptor the
-- source returns an uninitialised number, and `garbage` stands for it.
unfoldable pub client_sendfile : Option ℕ → Option ℕ → Transfer → Option ℕ × List ℕ × Transfer
client_sendfile garbage none t =
    if t.mapped then (none, [], t) else if t.open_fd then (none, [], t) else (garbage, [], t)
client_sendfile garbage (some n) t =
    if t.mapped
    then (some n, take n t.file, record t { of_offset = t.of_offset + n })
    else if t.open_fd
    then (some n, take n (drop t.of_offset t.file), record t { of_offset = t.of_offset + n })
    else (garbage, [], t)

-- What `event_client_sendfile` does next: it waits for the event again, or it is done with the
-- connection, which it keeps or closes.
pub data Next : Type 0 where
  again : Next
  reset : Bool → Next

-- `event_client_sendfile`; `eagain` says that `errno` is EAGAIN.
unfoldable pub event_client_sendfile :
    Option ℕ → Option ℕ → Bool → Bool → Transfer → Next × List ℕ × Transfer
event_client_sendfile garbage accepted eagain keep_alive t =
    let (count, out, t') = client_sendfile garbage accepted t in
    elim count [
      | none ↦ (if eagain then again else reset false, out, t')
      | some n ↦ (if t'.of_offset == t'.content_length then reset keep_alive else again, out, t')
    ]

-- The handler over the answers of the system, until it does not wait for the event again. The
-- result says what comes next, and what went out in all.
unfoldable pub send_events : Bool → List ℕ → Transfer → Next × List ℕ
send_events keep_alive [] t = (again, [])
send_events keep_alive (n ∷ ns) t =
    let (next, out, t') = event_client_sendfile none (some n) false keep_alive t in
    let (next', outs) = send_events keep_alive ns t' in
    elim next [ again ↦ (next', out ++ outs) | reset k ↦ (reset k, out) ]

-- The sum of the counts that the system accepts.
abbrev pub sum : List ℕ → ℕ
sum [] = 0
sum (n ∷ ns) = n + sum ns

-- Each count but the last leaves something to send.
abbrev pub Counts : ℕ → List ℕ → Type 0
Counts k [] = k ≡ 0
Counts k (n ∷ ns) = (n ≤ k) × (0 < k) × Counts (k - n) ns

rest-Counts :
    (t : Transfer) (n : ℕ) (ns : List ℕ)
    → Counts (t.content_length - t.of_offset - n) ns
    → Counts (t.content_length - (t.of_offset + n)) ns
rest-Counts t n ns c = subst (λ k. Counts k ns) (omega arith) c

send_from :
    (keep_alive : Bool) (ns : List ℕ) (t : Transfer)
    → t.mapped ≡ false
    → t.open_fd ≡ true
    → t.content_length ≡ length t.file
    → t.of_offset < t.content_length
    → Counts (t.content_length - t.of_offset) ns
    → send_events keep_alive ns t ≡ (reset keep_alive, drop t.of_offset t.file)
unfolding send_events event_client_sendfile client_sendfile
send_from keep_alive [] t m o l lt c = absurd (omega arith)
send_from keep_alive (n ∷ ns) t m o l lt c =
    elim (Bool-cases (t.of_offset + n == t.content_length)) [
      | inl last ↦
          let all : take n (drop t.of_offset t.file) ≡ drop t.of_offset t.file =
            take-all n (drop t.of_offset t.file) (ground (arith, length-drop t.of_offset t.file)) in
          ground (arith, all)
      | inr more ↦
          let t' = record t { of_offset = t.of_offset + n } in
          let ih = send_from keep_alive ns t' m o l (ground arith) (rest-Counts t n ns c.2) in
          let joined : take n (drop t.of_offset t.file) ++ drop (t.of_offset + n) t.file
              ≡ drop t.of_offset t.file =
            rw (← drop-add t.of_offset n t.file) (take-append-drop n (drop t.of_offset t.file)) in
          ground (arith, ih, joined)
    ]

-- The transfer of a file by its descriptor, over any partial counts that the system accepts until
-- the whole file is gone: exactly the file's bytes go out, in order and once, and then the
-- connection is kept or closed as the client asked.
pub send_events-file :
    (keep_alive : Bool) (ns : List ℕ) (t : Transfer)
    → t.mapped ≡ false
    → t.open_fd ≡ true
    → t.content_length ≡ length t.file
    → t.of_offset ≡ 0
    → 0 < length t.file
    → Counts (length t.file) ns
    → send_events keep_alive ns t ≡ (reset keep_alive, t.file)
send_events-file keep_alive ns t m o l z pos c =
    send_from keep_alive ns t m o l (omega arith) (subst (λ k. Counts k ns) (omega arith) c)
    ∙ ap (λ k. (reset keep_alive, drop k t.file)) z

-- The transfer of a mapped file that the system takes in two parts: the second part is taken from
-- the start of the file again, not from where the first one ended.
pub send_events-mapped :
    (keep_alive : Bool) (n : ℕ) (t : Transfer)
    → t.mapped ≡ true
    → t.of_offset ≡ 0
    → 0 < n
    → n < t.content_length
    → send_events keep_alive (n ∷ (t.content_length - n) ∷ []) t
      ≡ (reset keep_alive, take n t.file ++ take (t.content_length - n) t.file)
unfolding send_events event_client_sendfile client_sendfile
send_events-mapped keep_alive n t m z pos lt = ground arith
