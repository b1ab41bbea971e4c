-- ===== src/Lib.antt =====
-- Telezon S3: an S3 server that keeps its objects as files in Telegram chats.
--
-- A request comes in through the handlers (app/s3/handlers), which authorise it (app/s3/auth.py),
-- look up rows (app/crud), store, fetch or delete files through the storage interface
-- (app/storage/backend.py), and keep a disk cache of small objects (app/storage/disk_cache.py). One
-- database session spans a request: it commits when the handler returns and rolls back when it
-- raises, while what was done to Telegram and to the cache stays.
--
-- The files:
--   Prelude (Tests, Lists, Texts)   Boolean tests, list and text functions that the parts share
--   Model (Settings, Lookup)        app/models, app/db/tables.py, app/core/config.py, and the reads
--                                   by primary key of app/crud/user.py, credential.py, bucket.py
--   Outcome                         values and exceptions; app/storage/errors.py
--   Tables (Like, Blobs, Buckets, Trash, Uploads, Refs, Shares)
--                                   app/crud/blob.py, bucket.py, trash.py, multipart.py, tg_refs.py, share.py
--                                   and share_lockout.py, as functions from the database to the
--                                   database
--   Cache                           app/storage/disk_cache.py
--   Telegram (World, Deletes)       app/storage/backend.py, the state that a request works on, and
--                                   app/ops/tg_delete.py
--   Lifecycle                       app/s3/object_lifecycle.py
--   Range                           app/s3/http_range.py
--   Http (Text, Body, Subresources) requests, responses and handlers that return early;
--                                   app/s3/errors.py, body.py, subresources.py
--   Sse                             app/s3/sse.py
--   BlobIo (Parts, Ranges)          app/s3/blob_io.py, app/storage/tg_context.py
--   Auth (Policy)                   app/s3/auth.py
--   Service                         what the handlers are given, and get_database of
--                                   app/db/session.py
--   Objects (Get, Put, Batch, ...)  app/s3/handlers/object.py, delete_objects.py,
--                                   app/s3/stream_upload.py, object_etag of app/s3/xml.py
--   Multipart (Staging, Upload, Checks, Albums, Complete, ...)
--                                   app/s3/handlers/multipart.py, app/storage/mpu_staging.py and
--                                   tg_label.py
--   Shares                          the download in app/api/v1/endpoints/shares.py
--   Listing (Page, Xml, Handlers, ...)
--                                   app/s3/handlers/list_objects.py, list_query.py, and the listings
--                                   of app/s3/xml.py
--   Buckets                         app/s3/handlers/bucket_ops.py, list_buckets.py
--   Copies (Forward, ...)           app/s3/handlers/copy_object.py, app/s3/copy_forward.py
--   Collector (Steps, ...)          app/ops/gc.py
--   Examples                        a small installation, and runs on it
--
-- Definitions carry the names of the functions they translate. A handler is cut at its early
-- returns: guards are in `Flow`, and what changes state passes the `World` on explicitly: the
-- database as one list of rows for each table, the state of the storage service, the cache, the
-- clock, and the random identifiers still to be drawn.
--
-- Bounds: `evict` of Cache runs on as much fuel as the cache has entries, and each round deletes
-- one; `show_nat` on its number; `chunks_of` of Multipart/Albums, which Copies/Forward uses as well,
-- on the number of parts. Numbers are natural; Python's have no bound either. Texts are read by code
-- points below 256, as a server decodes headers.
--
-- Parameters: Telegram's client library (the record `Storage`), the verification of signatures
-- (`Verifier`; app/s3/awssig is a copy of another project's library), AES-GCM, MD5 and Base64
-- (`Crypto`), bcrypt, the parsers of dates and of XML, the removal of percent escapes, what the
-- database's engine takes for LIKE a pattern and in which order it puts texts (`Collation`, a field
-- of the database), and for the collector its random sample of objects and the texts of exceptions.
-- The laws `DeletesOne`, `Keeps`, `KeepsAlbums`, `OrdersTexts` and `Decodes` say what is relied on.
-- The queries compare texts for equality exactly, as SQLite does; a collation that ignores case
-- does not.
--
-- Not modelled: the HTTP API of the web interface but for the download of links, the task that
-- repeats the collector's runs, the Telegram clients, the bot and the command line. The local file
-- system does not fail when a body or a part is staged, and a damaged cache metadata file is left
-- out.
pub mod Prelude
pub mod Model
pub mod Outcome
pub mod Http
pub mod Range
pub mod Tables
pub mod Cache
pub mod Telegram
pub mod Lifecycle
pub mod Sse
pub mod BlobIo
pub mod Auth
pub mod Service
pub mod Objects
pub mod Buckets
pub mod Collector
pub mod Copies
pub mod Listing
pub mod Multipart
pub mod Shares
pub mod Examples
