-- ===== src/Lib.antt =====
-- Home-store: an S3-compatible object store that keeps buckets and objects in a directory.
--
-- The program. The HTTP handlers (internal/api) parse requests and call storage.Backend
-- (internal/storage/storage.go); FSBackend (internal/storage/fs) implements it with files. A bucket
-- `b` is the file `bucket_metadata/b/.bucket.json` and the directory `b`; an object of key `k` is the
-- file `b/.objects/h` with its bytes and the file `b/.metadata/h.json` with its metadata, where `h` is
-- the hexadecimal SHA-256 sum of `k`; an upload is a directory below `b/.multipart`. PutObject writes
-- a temporary file, renames it and then writes the metadata.
--
-- The files, by what they model:
--   Storage: the types and errors of internal/storage/storage.go. Storage/Names: IsValidBucketName and
--     isIPAddress; Storage/Names/Rules describes the names that they accept.
--   Os: the calls of the operating system as state passing. Os/Path: paths; Os/Disk: the file tree (its
--     entries in Os/Disk/Entries);
--     Os/Exec: programs that make calls, each of which may end as a list of faults says; Os/Calls: the
--     calls; Os/Stable: predicates on the tree that calls keep, whatever fails; Os/Ends:
--     where a program ends that started in a given place; Os/Layout: the places
--     of directories and of files; Os/Calm: what the calls give where none fails for an outside reason.
--   Fs/Paths: the path functions of fs.go, objects.go, metadata.go and multipart.go in
--     internal/storage/fs. Fs/Metadata: metadata.go. Fs/Buckets: the bucket operations of fs.go.
--     Fs/Objects and Fs/Listing: objects.go. Fs/Parts and Fs/Multipart: multipart.go. An operation has
--     the name of its Go method in lower case: PutObject is put_object.
--   Fs/Touches: which paths each operation touches. Fs/History: requests one after another. Fs/Runs:
--     what operations give one after another.
--   Fs/Abstract: the objects of a bucket as a store by key, which Fs/Abstract/Refines compares with
--     the files. Fs/Names: the places that a bucket's name allows. Fs/Implements: FSBackend as a value
--     of Backend, the interface of internal/storage/storage.go.
--   S3: internal/s3, the error codes and the types of bodies (S3/Types). Http: what the handlers use of
--     net/http, net/url, strconv and encoding/base64. Config: internal/config.
--   Api: internal/api. Api/Handler: routing (handler.go). Api/Buckets, Api/Lists, Api/Multipart: the
--     handlers of bucket.go, list.go, multipart.go. Api/Objects: those of object.go, rename.go and
--     attributes.go. Api/Responses: what they share, parseBucketKey among it. handleGetObject is
--     handle_get_object. Api/Serves: what each handler does for any backend, Api/Answers and
--     Api/History: what follows for the server; Api/Runs: requests one after another; Api/Pages: lists.
--   Prelude: helpers on lists, bytes and sorting. Tests: runs, and the theorems at concrete inputs.
--
-- Readings of the source. A program is a function of the tree and of a list of faults. Each call takes
-- the next fault: it runs, fails and changes nothing, or fails midway (WriteFile
-- leaves an empty file, RemoveAll a part of the tree); where the list has ended calls run. A copy that
-- stops early is one from a Reader that gives fewer bytes and then fails. MkdirAll that fails makes
-- nothing.
-- An error that the code wraps with text is `other`; errors it compares with are kept apart. Requests
-- run one at a time: the code takes no locks, and interleaved requests are not modelled. Paths are
-- relative to the base path. Times are numbers. A file that the code encodes as JSON holds the value
-- that decoding gives back, where each string has passed through `json_string`: JSON replaces bytes
-- that are not UTF-8. SHA-256, MD5, JSON text, the clock, the random bytes and the suffix of temporary
-- names are fields of Env, a parameter; the layouts of times, the XML decoder and the random request
-- identifier are fields of Library, another one. Of all these only the length of a SHA-256 sum is assumed. A body is
-- a Reader, with the bytes that it gives and whether it ends without an error. Two calls of CreateTemp
-- in one request get the same suffix in two directories. MaxKeys is a natural number: the handlers hand
-- on no negative one. sort.Slice is an insertion sort that keeps the order of equal items, which
-- the order of the directory's entries gives. There are no links, permissions or disk limits but as faults.
--
-- A request holds its method as one of six values, the sixth for any other; its path, unescaped as
-- net/http hands it over; its query and its headers as lists, and its body. A header's name stands in
-- the list once, with its values; names are compared in lower case, for ASCII letters. User metadata is met in the
-- order of that list, where the code ranges over a map. A response holds the status, the headers that were set
-- and the body, an XML body as the record that is encoded. Writing to the client does not fail. A copy of
-- an object to the client is the bytes of the object. strconv.Atoi reads an int of 64 bits; a negative part
-- number is handed on as 0, which the backend refuses as it does a negative one. package flag has parsed the
-- command line, which is a parameter of Load.
--
-- Bounds and fuel. Loops are recursions over lists. Following pages (Fs/Listing/Pages) has fuel, which
-- is enough when it exceeds the number of objects left.
--
-- Not modelled: the encoding and the decoding of XML, and the start and stop of the server
-- (internal/server and cmd/home-store), which only call net/http, the signals of the system and the code
-- that is modelled; interleaved requests.
pub mod Prelude
pub mod Storage
pub mod Os
pub mod Fs
pub mod S3
pub mod Http
pub mod Backend
pub mod Api
pub mod Config
pub mod Tests
