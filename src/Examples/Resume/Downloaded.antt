-- ===== src/Examples/Resume/Downloaded.antt =====
-- The file of the client of examples/http_resume_stream/main.go after an attempt.
use resile.Errors.{Err}
use resile.Examples.Resume.Range.{range_header}
use resile.Examples.Resume.Server.{Response, handle}
use resile.Examples.Resume.Served.{Answers, Served, handle-Answers}
use resile.Examples.Resume.Client.{
  Client, Environment, or_nothing, copy, store, on_status, receive, download,
}
use resile.Prelude.{
  ℕ, zero, suc, ◌+◌, ◌-◌, ◌≤◌, ◌<◌, ◌^◌, ◌≡◌, refl, ap, sym, subst, ◌∙◌, inl, inr, Bool, true,
  false, Option, some, none, List, [], ◌++◌, if◌then◌else◌, length, take, drop, take-take,
  take-append_drop, take_all, length-take, length-drop, arith,
}

-- The ResponseWriter of net/http can be hijacked, and io.Copy stores what it reads from the response
-- and gives no error only if it has read all of it, which a connection that broke does not let it.
pub record IsHttp (env : Environment) : Type 0 where
  pub hijacks : (i : ℕ) → (env.luck i).is_hijacker ≡ true
  pub bounded : (i : ℕ) (r : Response) → (env.copied i r).0 ≤ length r.body
  pub whole :
      (i : ℕ) (r : Response)
      → (env.copied i r).1 ≡ none
      → (r.broken ≡ false) × ((env.copied i r).0 ≡ length r.body)

module _ (content : List ℕ) where
  -- The client's count is that of the bytes in its file, which are the first ones of the content.
  abbrev pub Consistent : Client → Type 0
  Consistent c =
      (c.bytes_received ≤ length content)
      × (0 < c.bytes_received → c.file ≡ some (take c.bytes_received content))

  abbrev pub Complete : Client → Type 0
  Complete c = c.file ≡ some content

  -- After an attempt.
  abbrev pub Steps : Option Err × Client → Type 0
  Steps (none, c) = Consistent c × Complete c
  Steps (some e, c) = Consistent c

  finished :
      (err : Option Err) (c : Client) → Consistent c → (err ≡ none → Complete c) → Steps (err, c)
  finished none c h k = (h, k refl)
  finished (some e) c h k = h

  joined :
      (b n m : ℕ)
      → n ≤ length (take m (drop b content))
      → take b content ++ take n (take m (drop b content)) ≡ take (b + n) content
  joined b n m h =
      ap (λ l. take b content ++ l)
        (take-take n m (drop b content) (omega (arith, h, length-take m (drop b content))))
      ∙ sym (take-append_drop b n content)

  module _ (env : Environment) (http : IsHttp env) where
    copy-Steps :
        (i : ℕ) (response : Response) (c : Client)
        → c.bytes_received ≤ length content
        → Served content c.bytes_received (response.body, response.broken)
        → Steps (copy env content i response (take c.bytes_received content) c)
    copy-Steps i response c h (m, fits, body, all) =
        let b = c.bytes_received in
        let (n, err) = env.copied i response in
        let n_le : n ≤ length (take m (drop b content)) =
          subst (λ l. n ≤ length l) body (http.bounded i response) in
        let part : take b content ++ take n response.body ≡ take (b + n) content =
          ap (λ l. take b content ++ take n l) body ∙ joined b n m n_le in
        finished err
          (record c {
            bytes_received = b + n;
            file = some (take b content ++ take n response.body);
          })
          (within b n m h n_le, λ p. ap some part)
          (λ e.
            let (unbroken, full) = http.whole i response e in
            ap some (
              part
              ∙ take_all (b + n) content (enough b n m (all unbroken) (full ∙ ap length body))))
      where
        within :
            (b n m : ℕ)
            → b ≤ length content
            → n ≤ length (take m (drop b content))
            → b + n ≤ length content
        within b n m h k = omega (arith, length-take m (drop b content), length-drop b content)

        enough :
            (b n m : ℕ)
            → m ≡ length content - b
            → n ≡ length (take m (drop b content))
            → length content ≤ b + n
        enough b n m p q =
            omega (arith, p, q, length-take m (drop b content), length-drop b content)

    -- An error that ends the attempt early.
    unless :
        (o : Option Err) (c : Client) (x : Option Err × Client)
        → Consistent c
        → Steps x
        → Steps (elim o [ some e ↦ (some e, c) | none ↦ x ])
    unless none c x h k = k
    unless (some e) c x h k = h

    store-Steps :
        (truncates : Bool) (i : ℕ) (response : Response) (c : Client)
        → Consistent c
        → Served content c.bytes_received (response.body, response.broken)
        → (if truncates then [] else or_nothing c.file) ≡ take c.bytes_received content
        → Steps (store env content truncates i response c)
    store-Steps truncates i response c h s opened = unless (env.open_error i) c _ h (
        subst (λ l. Steps (copy env content i response l c)) (sym opened)
          (copy-Steps i response c h.0 s))

    receive-Steps :
        (i b : ℕ) (file : Option (List ℕ)) (requests : ℕ) (response : Response)
        → Consistent (record { bytes_received = b; file = file; requests = requests })
        → Answers content b response
        → Steps (
            receive env content i response
              (record { bytes_received = b; file = file; requests = requests }))
    unfolding receive
    receive-Steps i b file requests response h (inl refused) =
        let c : Client = record { bytes_received = b; file = file; requests = requests } in
        subst (λ s. Steps (on_status env content s i response c)) (sym refused) h
    receive-Steps i zero file requests response h (inr (status, s)) =
        let c : Client = record { bytes_received = 0; file = file; requests = requests } in
        subst (λ s. Steps (on_status env content s i response c)) (sym status)
          (store-Steps true i response c h s refl)
    receive-Steps i (suc b) file requests response h (inr (status, s)) =
        let c : Client = record { bytes_received = suc b; file = file; requests = requests } in
        subst (λ s. Steps (on_status env content s i response c)) (sym status)
          (store-Steps false i response c h s (ap or_nothing (h.1 (omega arith))))

    pub download-Steps :
        (c : Client) → length content < 2 ^ 63 → Consistent c → Steps (download env content c)
    unfolding download
    download-Steps c small h =
        let i = c.requests in
        let c' : Client = record c { requests = i + 1 } in
        unless (env.request_error i) c' _ h (
          unless (env.do_error i) c' _ h (
            receive-Steps i c.bytes_received c.file (i + 1)
              (handle (env.luck i) content (range_header c.bytes_received)) h
              (handle-Answers (env.luck i) content c.bytes_received (http.hijacks i)
                (omega arith))))
