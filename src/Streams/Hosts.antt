-- ===== src/Streams/Hosts.antt =====
-- Which stream is found for a host after registrations and removals.
use gopher_cron.Base.{
  Text, List, [], ◌∷◌, eq_text, Option, none, some, ◌≡◌, ◌≢◌, refl, ap, sym, ◌∙◌, if◌then◌else◌,
  text_eq, Bool, true, false, inl, inr, beq_refl, beq_false, Option-cases, text_eq_iff,
}
use gopher_cron.Base.Map.{lookup, insert, erase, lookup-insert, lookup-insert_self, lookup-erase}
use gopher_cron.Streams.{
  NodeMeta, Stream, Services, StreamManager, level_one, address, stream_of, generate_service_key,
  services, save_stream, remove_stream, put_back, get_streams_by_host,
}

-- A list is put back, or dropped where it is empty, which reads the same.
lookup-put_back :
    (k j : Text) (srv_list : Services) (m : List (Text × Services))
    → services (lookup j (put_back k srv_list m))
      ≡ (if text_eq k j then srv_list else services (lookup j m))
unfolding put_back
lookup-put_back k j [] m = ap services (lookup-erase k j m) ∙ go (text_eq k j)
  where
    go :
        (b : Bool)
        → services (if b then none else lookup j m) ≡ (if b then [] else services (lookup j m))
    go true = refl
    go false = refl
lookup-put_back k j (s ∷ srv_list) m =
    ap services (lookup-insert k j (s ∷ srv_list) m) ∙ go (text_eq k j)
  where
    go :
        (b : Bool)
        → services (if b then some (s ∷ srv_list) else lookup j m)
          ≡ (if b then s ∷ srv_list else services (lookup j m))
    go true = refl
    go false = refl

-- What a removal leaves of a stream that is read by its two keys.
abbrev read : Text → Text → StreamManager → Option Stream
read one two c = lookup two (services (lookup one c.alive_srv))

read-remove_other :
    (old : NodeMeta) (one two : Text) (c : StreamManager)
    → generate_service_key old ≢ two
    → read one two (remove_stream old c) ≡ read one two c
unfolding remove_stream
read-remove_other old one two c n = elim (Option-cases (lookup (level_one old) c.alive_srv)) [
  | inl e ↦ rw (e, remove_stream) refl
  | inr (srv_list, e) ↦
      rw (e, remove_stream)
        (ap (lookup two) (
            lookup-put_back (level_one old) one (erase (generate_service_key old) srv_list)
              c.alive_srv)
          ∙ go srv_list e (text_eq (level_one old) one) refl)
]
  where
    go :
        (srv_list : Services)
        → lookup (level_one old) c.alive_srv ≡ some srv_list
        → (b : Bool) → text_eq (level_one old) one ≡ b
        → lookup two (
            if b
            then erase (generate_service_key old) srv_list
            else services (lookup one c.alive_srv))
          ≡ lookup two (services (lookup one c.alive_srv))
    go srv_list e true h =
        lookup-erase (generate_service_key old) two srv_list
        ∙ ap (λ b. if b then none else lookup two srv_list)
            (beq_false (generate_service_key old) two n)
        ∙ ap (λ o. lookup two (services o)) (sym e)
        ∙ ap (λ k. lookup two (services (lookup k c.alive_srv)))
            ((text_eq_iff (level_one old) one).0 h)
    go srv_list e false h = refl

read-save_self :
    (info : NodeMeta) (c : StreamManager)
    → read (level_one info) (generate_service_key info) (save_stream info c) ≡ some (stream_of info)
unfolding save_stream
read-save_self info c =
    ap (λ o. lookup (generate_service_key info) (services o))
      (lookup-insert_self (level_one info)
        (insert (generate_service_key info) (stream_of info)
          (services (lookup (level_one info) c.alive_srv)))
        c.alive_srv)
    ∙ lookup-insert_self (generate_service_key info) (stream_of info)
        (services (lookup (level_one info) c.alive_srv))

remove_stream-host_index :
    (old : NodeMeta) (c : StreamManager) → (remove_stream old c).host_index ≡ c.host_index
unfolding remove_stream
remove_stream-host_index old c = elim (Option-cases (lookup (level_one old) c.alive_srv)) [
  | inl e ↦ rw (e, remove_stream) refl
  | inr (srv_list, e) ↦ rw (e, remove_stream) refl
]

-- The index of a host gives the two keys under which its stream is read.
by_host :
    (host one two : Text) (c : StreamManager)
    → lookup host c.host_index ≡ some (one, two)
    → get_streams_by_host host c ≡ read one two c
unfolding get_streams_by_host
by_host host one two c e = rw (e, get_streams_by_host) refl

index-save :
    (info : NodeMeta) (c : StreamManager)
    → lookup (address info) (save_stream info c).host_index
      ≡ some (level_one info, generate_service_key info)
unfolding save_stream
index-save info c =
    lookup-insert_self (address info) (level_one info, generate_service_key info) c.host_index

-- The stream that was registered last for a host is the one that is found for it, and it is still
-- found after the removal of any registration with another service key, such as an earlier one of
-- the same agent.
pub get_streams_by_host-save_stream :
    (info old : NodeMeta) (c : StreamManager)
    → generate_service_key old ≢ generate_service_key info
    → (get_streams_by_host (address info) (save_stream info c) ≡ some (stream_of info))
      × (get_streams_by_host (address info) (remove_stream old (save_stream info c))
          ≡ some (stream_of info))
get_streams_by_host-save_stream info old c n = (
  by_host (address info) (level_one info) (generate_service_key info) (save_stream info c)
        (index-save info c)
      ∙ read-save_self info c,
  by_host (address info) (level_one info) (generate_service_key info)
        (remove_stream old (save_stream info c))
        (ap (lookup (address info)) (remove_stream-host_index old (save_stream info c))
          ∙ index-save info c)
      ∙ read-remove_other old (level_one info) (generate_service_key info) (save_stream info c) n
      ∙ read-save_self info c,
)

gone :
    (info : NodeMeta) (c : StreamManager) (srv_list : Services)
    → lookup (level_one info) c.alive_srv ≡ some srv_list
    → read (level_one info) (generate_service_key info) (remove_stream info c) ≡ none
unfolding remove_stream
gone info c srv_list e =
    rw (e, remove_stream)
      (ap (lookup (generate_service_key info)) (
          lookup-put_back (level_one info) (level_one info)
            (erase (generate_service_key info) srv_list) c.alive_srv)
        ∙ ap
            (λ b. lookup (generate_service_key info) (
              if b
              then erase (generate_service_key info) srv_list
              else services (lookup (level_one info) c.alive_srv)))
            (beq_refl (level_one info))
        ∙ lookup-erase (generate_service_key info) (generate_service_key info) srv_list
        ∙ ap (λ b. if b then none else lookup (generate_service_key info) srv_list)
            (beq_refl (generate_service_key info)))

-- After a registration and its removal no stream is found for the host.
pub get_streams_by_host-remove_stream :
    (info : NodeMeta) (c : StreamManager)
    → get_streams_by_host (address info) (remove_stream info (save_stream info c)) ≡ none
unfolding save_stream
get_streams_by_host-remove_stream info c =
    by_host (address info) (level_one info) (generate_service_key info)
      (remove_stream info (save_stream info c))
      (ap (lookup (address info)) (remove_stream-host_index info (save_stream info c))
        ∙ index-save info c)
    ∙ gone info (save_stream info c)
        (insert (generate_service_key info) (stream_of info)
          (services (lookup (level_one info) c.alive_srv)))
        (lookup-insert_self (level_one info)
          (insert (generate_service_key info) (stream_of info)
            (services (lookup (level_one info) c.alive_srv)))
          c.alive_srv)
