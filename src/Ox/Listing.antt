-- ===== src/Ox/Listing.antt =====
-- The list of objects over the service over the database.
use ocfl_index.Base.{
  ℕ, zero, suc, ◌+◌, ◌<◌, ◌≡◌, refl, ap, ◌∙◌, Bool, some, List, [], ◌∷◌, map, length, All, Result,
  ok, take, Bool-cases, inl, inr, ◌==◌, pos, arith,
}
use ocfl_index.Text.{Str, str_lt}
use ocfl_index.Paging.{page_of, query, above, sort_by}
use ocfl_index.Paging.Order.{DistinctKeys, All-sort_by}
use ocfl_index.Paging.Maps.{map_page, map-query, map-page_of, length-map}
use ocfl_index.Paging.Keys.{DistinctKeys-map}
use ocfl_index.Sqlite.{IndexErr, Db}
use ocfl_index.Sqlite.Objects.{
  Parsers, ListedRow, listed_id, listed_rows, ObjectListItem, list_item, list_items, object_list,
}
use ocfl_index.Sqlite.Objects.Pages.{list_objects_lem}
use ocfl_index.Service.{ObjectMsg, Printers, int32, object_msg, as_object_list_response}
use ocfl_index.Service.Handlers.{list_objects_handler}
use ocfl_index.Ox.{service_client}
use ocfl_index.Ox.Objects.{message_id, list_all_objects}
use ocfl_index.Ox.OnePage.{list_response, objects_ran}
use ocfl_index.Ox.Iterating.{IsPagedList, list_loop_all}

module _ {ℓ} {A : Type ℓ} (key : A → Str) (P : A → Type 0) where
  All-take : (n : ℕ) (xs : List A) → All P xs → All P (take n xs)
  All-take zero xs h = tt
  All-take (suc n) [] h = tt
  All-take (suc n) (x ∷ xs) h = (h.0, All-take n xs h.1)

  All-above : (c : Str) (xs : List A) → All P xs → All P (above key c xs)
  unfolding above
  All-above c [] h = tt
  All-above c (x ∷ xs) h = elim (Bool-cases (str_lt c (key x))) [
    | inl e ↦ rw e (h.0, All-above c xs h.1)
    | inr e ↦ rw e (All-above c xs h.1)
  ]

  All-page_of : (n : ℕ) (xs : List A) → All P xs → All P (page_of key n xs).items
  unfolding page_of
  All-page_of n xs h = elim (Bool-cases (length xs == n + 1)) [
    | inl e ↦ rw e (All-take n xs h)
    | inr e ↦ rw e h
  ]

  All-query : (n : ℕ) (c : Str) (xs : List A) → All P xs → All P (query key n c xs)
  unfolding query
  All-query n c xs h = All-take n _ (All-above c _ (All-sort_by key P xs h))

module _ {A B : Type 0} (f : A → B) (key : A → Str) (key' : B → Str)
    (keeps : (x : A) → key' (f x) ≡ key x) where
  paged :
      (cursor : Str) (xs : List A)
      → map_page f key key' keeps (page_of key 1000 (query key 1001 cursor xs))
        ≡ page_of key' 1000 (query key' 1001 cursor (map f xs))
  paged cursor xs =
      map-page_of f key key' keeps 1000 (query key 1001 cursor xs)
      ∙ ap (page_of key' 1000) (map-query f key key' keeps 1001 cursor xs)

module _ (P : Parsers) (W : Printers P) (head_of : Str → Parsers.VNum P)
    (spec_of : Str → Parsers.Spec P) where
  abbrev item_id : ObjectListItem P → Str
  item_id x = x.id

  -- A row whose head and specification can be parsed.
  abbrev pub IsParsed : ListedRow → Type 0
  IsParsed r =
      (Parsers.parse_vnum P r.head ≡ some (head_of r.head))
      × (Parsers.parse_spec P r.spec ≡ some (spec_of r.spec))

  -- The row as a message.
  unfoldable pub row_item : ListedRow → ObjectListItem P
  row_item r = record {
    root_path = r.path;
    id = r.ocfl_id;
    head = head_of r.head;
    spec = spec_of r.spec;
    v1_created = r.created;
    head_created = r.created_2;
  }

  unfoldable pub row_msgs : List ListedRow → List ObjectMsg
  unfolding row_item object_msg
  row_msgs rs = map (object_msg P W) (map row_item rs)

  list_items_lem :
      (rs : List ListedRow) → All IsParsed rs → list_items P rs ≡ some (map row_item rs)
  unfolding list_items list_item row_item
  list_items_lem [] h = refl
  list_items_lem (r ∷ rs) h = rw (h.0.0, h.0.1, list_items_lem rs h.1) refl

  module _ (like : Str → Str → Bool) (index_ids : List Str → Result IndexErr (Unit {0}))
      (db : Db) where
    answered_page :
        (cursor : Str)
        → All IsParsed (listed_rows like [] db.inventories db)
        → list_objects_handler P W like
            (record { page_token = cursor; page_size = pos 1000; id_prefix = [] })
            db
          ≡ ok (
              list_response (
                page_of message_id 1000 (
                  query message_id 1001 cursor (row_msgs (listed_rows like [] db.inventories db)))))
    unfolding list_objects_handler object_list as_object_list_response row_msgs row_item object_msg
    answered_page cursor a =
        let rows = listed_rows like [] db.inventories db in
        let page = page_of listed_id 1000 (query listed_id 1001 cursor rows) in
        rw
          (
            list_objects_lem P like [] cursor 1000 db,
            list_items_lem page.items (
                All-page_of listed_id IsParsed 1000 _
                  (All-query listed_id IsParsed 1001 cursor rows a)),
          )
          (ap (λ p. ok (list_response p))
            (ap (map_page (object_msg P W) item_id message_id (λ r. refl))
                (paged row_item listed_id item_id (λ r. refl) cursor rows)
              ∙ paged (object_msg P W) item_id message_id (λ r. refl) cursor (map row_item rows)))

    service_IsPagedList :
        All IsParsed (listed_rows like [] db.inventories db)
        → DistinctKeys listed_id (listed_rows like [] db.inventories db)
        → IsPagedList
            (service_client P W like index_ids db)
            []
            1000
            999
            (row_msgs (listed_rows like [] db.inventories db))
    unfolding service_client int32 row_msgs row_item object_msg
    service_IsPagedList a d = record {
      page = λ cursor. answered_page cursor a;
      distinct =
          DistinctKeys-map item_id (object_msg P W) message_id (λ x y. refl) _
            (DistinctKeys-map listed_id row_item item_id (λ x y. refl) _ d);
    }

    -- Over a service on an unchanging database whose matching inventories have distinct ids, and
    -- heads and specifications that can be parsed, ls without an object prints, given fuel for
    -- more steps than there are such inventories, a line for each of them whose id is not empty,
    -- once and in ascending order of their ids, with the time of its first version, and ends
    -- without an error; if the client cannot parse the head of one of them, it ends there with an
    -- error.
    pub list_all_objects_lem :
        (fuel : ℕ)
        → All IsParsed (listed_rows like [] db.inventories db)
        → DistinctKeys listed_id (listed_rows like [] db.inventories db)
        → length (listed_rows like [] db.inventories db) < fuel
        → let msgs = row_msgs (listed_rows like [] db.inventories db) in
          list_all_objects P (service_client P W like index_ids db) W fuel
          ≡ some (objects_ran P W (above message_id [] (sort_by message_id msgs)))
    unfolding list_all_objects row_msgs
    list_all_objects_lem fuel a d l =
        let rows = listed_rows like [] db.inventories db in
        list_loop_all P W _ [] 1000 999 _ (service_IsPagedList a d) fuel
          (omega (arith, length-map row_item rows, length-map (object_msg P W) (map row_item rows)))
