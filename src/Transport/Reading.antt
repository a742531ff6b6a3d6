-- ===== src/Transport/Reading.antt =====
-- What the reader goroutine hands to the client.
use centrifuge_go.Prelude.{
  Bool, true, false, String, List, [], ◌∷◌, ◌++◌, map, Option, some, ◌≡◌, refl, ap, ◌∙◌, sym, arith,
  subst, if◌then◌else◌, not,
}
use centrifuge_go.State.{Disconnect}
use centrifuge_go.Transport.{
  WebsocketTransport, Incoming, message, read_failed, ReadError, extract_disconnect, send_replies,
  stop_reader, close_transport, reader, decode_failed,
}

module _ {ℓ} {R : Type ℓ} where
  -- A message whose replies are all taken; `at_eof` says that it decodes to its end.
  abbrev pub taken : Bool → List R → Incoming R
  taken at_eof rs = message (record { replies = map (λ r. (false, r)) rs; at_eof = at_eof })

  unfoldable pub concat : List (List R) → List R
  concat [] = []
  concat (rs ∷ batches) = rs ++ concat batches

  ++-assoc : (a b c : List R) → (a ++ b) ++ c ≡ a ++ (b ++ c)
  ++-assoc [] b c = refl
  ++-assoc (x ∷ a) b c = ap (λ rest. x ∷ rest) (++-assoc a b c)

  ++-nil : (a : List R) → a ++ [] ≡ a
  ++-nil [] = refl
  ++-nil (x ∷ a) = ap (λ rest. x ∷ rest) (++-nil a)

  send-taken :
      (rs : List R) (t : WebsocketTransport R)
      → send_replies (map (λ r. (false, r)) rs) t ≡ (true, record t { sent = t.sent ++ rs })
  unfolding send_replies
  send-taken [] t = ap (λ sent. (true, record t { sent = sent })) (sym (++-nil t.sent))
  send-taken (r ∷ rs) t =
      send-taken rs (record t { sent = t.sent ++ (r ∷ []) })
      ∙ ap (λ sent. (true, record t { sent = sent })) (++-assoc t.sent (r ∷ []) rs)

  -- The transport when the reader stopped after it handed over `rs` to the client.
  pub record IsEnded (t : WebsocketTransport R) (rs : List R) (d : Option Disconnect) : Type ℓ where
    pub sent : t.sent ≡ rs
    pub disconnect : t.disconnect ≡ d
    pub closed : t.closed ≡ true
    pub ended : t.reply_ch_open ≡ false

  stop_reader-IsEnded : (t : WebsocketTransport R) → IsEnded (stop_reader t) t.sent t.disconnect
  unfolding stop_reader close_transport
  stop_reader-IsEnded t = ground arith

  reader-taken :
      (parse : String → Option Disconnect) (rs : List R) (rest : List (Incoming R))
      (t : WebsocketTransport R)
      → reader parse (taken true rs ∷ rest) t ≡ reader parse rest (record t { sent = t.sent ++ rs })
  unfolding reader
  reader-taken parse rs rest t =
      ap (λ p. if not p.0 then stop_reader p.1 else reader parse rest p.1) (send-taken rs t)

  -- A message that breaks off, and a read that fails.
  reader-broken :
      (parse : String → Option Disconnect) (rs : List R) (rest : List (Incoming R))
      (t : WebsocketTransport R)
      → IsEnded (reader parse (taken false rs ∷ rest) t) (t.sent ++ rs) (some decode_failed)
  unfolding reader
  reader-broken parse rs rest t =
      let t1 = record t { sent = t.sent ++ rs } in
      let same =
        ap
          (λ p.
            if not p.0
            then stop_reader p.1
            else stop_reader (record (p.1) { disconnect = some decode_failed }))
          (send-taken rs t) in
      subst (λ u. IsEnded u (t.sent ++ rs) (some decode_failed)) (sym same)
        (stop_reader-IsEnded (record t1 { disconnect = some decode_failed }))

  reader-failed :
      (parse : String → Option Disconnect) (e : ReadError) (rest : List (Incoming R))
      (t : WebsocketTransport R)
      → IsEnded (reader parse (read_failed e ∷ rest) t) t.sent (extract_disconnect parse e)
  unfolding reader
  reader-failed parse e rest t =
      stop_reader-IsEnded (record t { disconnect = extract_disconnect parse e })

  -- After the messages of `batches` the reader goes on with `rest`.
  reader-batches :
      (parse : String → Option Disconnect) (batches : List (List R)) (rest : List (Incoming R))
      (t : WebsocketTransport R)
      → reader parse (map (taken true) batches ++ rest) t
        ≡ reader parse rest (record t { sent = t.sent ++ concat batches })
  unfolding concat
  reader-batches parse [] rest t =
      ap (λ sent. reader parse rest (record t { sent = sent })) (sym (++-nil t.sent))
  reader-batches parse (rs ∷ batches) rest t =
      reader-taken parse rs (map (taken true) batches ++ rest) t
      ∙ reader-batches parse batches rest (record t { sent = t.sent ++ rs })
      ∙ ap (λ sent. reader parse rest (record t { sent = sent }))
          (++-assoc t.sent rs (concat batches))

  -- However the replies are split into messages, the reader hands all of them to the client, in
  -- order, as long as the transport is not closed meanwhile. When a read then fails it ends with the
  -- disconnect of that error; when a message cannot be decoded to its end, after the replies before
  -- the failure, with a bad protocol disconnect. Each time it closes the transport and the channel of
  -- replies, and takes nothing of what would come after.
  pub reader-IsEnded :
      (parse : String → Option Disconnect) (batches : List (List R)) (last : List R) (e : ReadError)
      (rest : List (Incoming R)) (t : WebsocketTransport R)
      → IsEnded
          (reader parse (map (taken true) batches ++ (read_failed e ∷ rest)) t)
          (t.sent ++ concat batches)
          (extract_disconnect parse e)
        × IsEnded
            (reader parse (map (taken true) batches ++ (taken false last ∷ rest)) t)
            ((t.sent ++ concat batches) ++ last)
            (some decode_failed)
  reader-IsEnded parse batches last e rest t =
      let t1 = record t { sent = t.sent ++ concat batches } in
      (
        subst (λ u. IsEnded u t1.sent (extract_disconnect parse e))
            (sym (reader-batches parse batches (read_failed e ∷ rest) t))
            (reader-failed parse e rest t1),
        subst (λ u. IsEnded u (t1.sent ++ last) (some decode_failed))
            (sym (reader-batches parse batches (taken false last ∷ rest) t))
            (reader-broken parse last rest t1),
      )
